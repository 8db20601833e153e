-- ===== src/Dedup.antt =====
-- src/ha_backend/indexing/deduplication.py: the snapshots of one page that are captured on one day
-- with the same content, their marking and its undoing. A session that is flushed is the pair of
-- the two tables.
pub mod Find
pub mod Marks
pub mod Undo
pub mod Canonical
use healtharchive.Base.{
  ℕ, suc, String, Bool, true, false, ◌&&◌, not, Option, none, some, List, [], ◌∷◌, ◌==◌, keep, map,
  length, if◌then◌else◌,
}

-- The columns of a snapshot that are read; `capture_day` is DATE(capture_timestamp).
pub record Snapshot : Type 0 where
  pub id : ℕ
  pub job_id : Option ℕ
  pub source_id : Option ℕ
  pub url : String
  pub normalized_url_group : Option String
  pub capture_day : ℕ
  pub content_hash : Option String
  pub deduplicated : Bool

-- A row of the audit table snapshot_deduplications.
pub record Audit : Type 0 where
  pub snapshot_id : ℕ
  pub canonical_snapshot_id : ℕ
  pub deduped_at : ℕ

pub record Database : Type 0 where
  pub snapshots : List Snapshot
  pub audits : List Audit

pub record DedupCandidate : Type 0 where
  pub duplicate_id : ℕ
  pub canonical_id : ℕ
  pub url : String
  pub capture_date : ℕ
  pub content_hash : Option String

pub record DedupResult : Type 0 where
  pub candidates : List DedupCandidate
  pub applied : Bool
  pub deduped_count : ℕ
  pub skipped_count : ℕ

-- session.get(Snapshot, i)
unfoldable pub get_snapshot : ℕ → List Snapshot → Option Snapshot
get_snapshot i [] = none
get_snapshot i (s ∷ ss) = let rest = get_snapshot i ss in if s.id == i then some s else rest

-- The row of an id with its flag set.
unfoldable pub mark : ℕ → List Snapshot → List Snapshot
mark i [] = []
mark i (s ∷ ss) =
    let rest = mark i ss in if s.id == i then record s { deduplicated = true } ∷ ss else s ∷ rest

-- `snap is None or snap.deduplicated`
unfoldable pub is_skipped : Option Snapshot → Bool
is_skipped none = true
is_skipped (some s) = s.deduplicated

abbrev pub audit_of : ℕ → DedupCandidate → Audit
audit_of now c = record {
  snapshot_id = c.duplicate_id;
  canonical_snapshot_id = c.canonical_id;
  deduped_at = now;
}

unfoldable pub mark_candidate : ℕ → DedupCandidate → Database → Database
mark_candidate now c db = record {
  snapshots = mark c.duplicate_id db.snapshots;
  audits = audit_of now c ∷ db.audits;
}

-- The loop of deduplicate_snapshots: the database, the marked and the skipped.
unfoldable pub apply_candidates : ℕ → List DedupCandidate → Database → Database × (ℕ × ℕ)
apply_candidates now [] db = (db, (0, 0))
apply_candidates now (c ∷ cs) db = elim (is_skipped (get_snapshot c.duplicate_id db.snapshots)) [
  | true ↦
      let (end, (deduped, skipped)) = apply_candidates now cs db in (end, (deduped, suc skipped))
  | false ↦
      let (end, (deduped, skipped)) = apply_candidates now cs (mark_candidate now c db) in
      (end, (suc deduped, skipped))
]

unfoldable pub deduplicate_snapshots :
    Bool → ℕ → List DedupCandidate → Database → Database × DedupResult
deduplicate_snapshots true now cs db =
    (db, record { candidates = cs; applied = false; deduped_count = length cs; skipped_count = 0 })
deduplicate_snapshots false now cs db =
    let (end, (deduped, skipped)) = apply_candidates now cs db in
    (
      end,
      record { candidates = cs; applied = true; deduped_count = deduped; skipped_count = skipped },
    )

-- `deduplicated` and, where a job is given, of that job
unfoldable pub is_restorable : Option ℕ → Snapshot → Bool
is_restorable none s = s.deduplicated
is_restorable (some job) s = s.deduplicated && (elim s.job_id [ none ↦ false | some j ↦ j == job ])

abbrev pub cleared : Snapshot → Snapshot
cleared s = record s { deduplicated = false }

-- The audit rows of each restored snapshot are deleted.
unfoldable pub delete_audits : List Snapshot → List Audit → List Audit
delete_audits [] audits = audits
delete_audits (s ∷ ss) audits = delete_audits ss (keep (λ a. not (s.id == a.snapshot_id)) audits)

unfoldable pub restore_deduped_snapshots : Option ℕ → Database → Database × ℕ
restore_deduped_snapshots job db =
    let restored = keep (is_restorable job) db.snapshots in
    (
      record {
        snapshots = map (λ s. if is_restorable job s then cleared s else s) db.snapshots;
        audits = delete_audits restored db.audits;
      },
      length restored,
    )
