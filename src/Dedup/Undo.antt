-- ===== src/Dedup/Undo.antt =====
-- src/ha_backend/indexing/deduplication.py: that a restore undoes a marking.
use healtharchive.Base.{
  ℕ, suc, ◌+◌, ◌≡◌, refl, sym, ap, ◌∙◌, inl, inr, true, false, not, none, List, [], ◌∷◌, ◌==◌, keep,
  any, All, map, length, arith, Bool-cases,
}
use healtharchive.Dedup.{
  Snapshot, Audit, Database, DedupCandidate, get_snapshot, mark, is_skipped, mark_candidate,
  apply_candidates, deduplicate_snapshots, is_restorable, cleared, delete_audits,
  restore_deduped_snapshots,
}
use healtharchive.Dedup.Marks.{
  map-cleared-fresh, map-cleared-mark, IsMarked-mark, IsMarked-mark_self, length-marked,
  map-restored, IsMarked, AllFresh, marked_rows,
}

-- What a marking keeps true from a table in which no row is marked and that has no audit rows.
abbrev IsUndone : List Snapshot → Database → Type 0
IsUndone base db =
    (map cleared db.snapshots ≡ base) × All (λ a. IsMarked a.snapshot_id db.snapshots) db.audits

audits-mark :
    (i : ℕ) (ss : List Snapshot) (audits : List Audit)
    → All (λ a. IsMarked a.snapshot_id ss) audits
    → All (λ a. IsMarked a.snapshot_id (mark i ss)) audits
audits-mark i ss [] h = tt
audits-mark i ss (a ∷ audits) h =
    (IsMarked-mark i a.snapshot_id ss h.0, audits-mark i ss audits h.1)

IsUndone-mark_candidate :
    (now : ℕ) (c : DedupCandidate) (base : List Snapshot) (db : Database)
    → is_skipped (get_snapshot c.duplicate_id db.snapshots) ≡ false
    → IsUndone base db
    → IsUndone base (mark_candidate now c db)
unfolding mark_candidate
IsUndone-mark_candidate now c base db e h = (
  map-cleared-mark c.duplicate_id db.snapshots ∙ h.0,
  (
    IsMarked-mark_self c.duplicate_id db.snapshots e,
    audits-mark c.duplicate_id db.snapshots db.audits h.1,
  ),
)

apply-IsUndone :
    (now : ℕ) (base : List Snapshot) (cs : List DedupCandidate) (db : Database)
    → IsUndone base db
    → IsUndone base (apply_candidates now cs db).0
unfolding apply_candidates
apply-IsUndone now base [] db h = h
apply-IsUndone now base (c ∷ cs) db h =
    elim (Bool-cases (is_skipped (get_snapshot c.duplicate_id db.snapshots))) [
      | inl e ↦ rw (e, apply_candidates) (apply-IsUndone now base cs db h)
      | inr e ↦
          rw (e, apply_candidates)
            (apply-IsUndone now base cs (mark_candidate now c db)
              (IsUndone-mark_candidate now c base db e h))
    ]

length-mark_candidate :
    (now : ℕ) (c : DedupCandidate) (db : Database)
    → is_skipped (get_snapshot c.duplicate_id db.snapshots) ≡ false
    → length (marked_rows (mark_candidate now c db).snapshots)
      ≡ suc (length (marked_rows db.snapshots))
unfolding mark_candidate
length-mark_candidate now c db e = length-marked c.duplicate_id db.snapshots e

-- Each candidate is marked or skipped, and each that is marked is one marked row more.
apply-counts :
    (now : ℕ) (cs : List DedupCandidate) (db : Database)
    → let (end, (deduped, skipped)) = apply_candidates now cs db in
      (deduped + skipped ≡ length cs)
      × (length (marked_rows end.snapshots) ≡ length (marked_rows db.snapshots) + deduped)
unfolding apply_candidates
apply-counts now [] db = (refl, omega arith)
apply-counts now (c ∷ cs) db =
    elim (Bool-cases (is_skipped (get_snapshot c.duplicate_id db.snapshots))) [
      | inl e ↦
          let ih = apply-counts now cs db in rw (e, apply_candidates) (omega (arith, ih.0), ih.1)
      | inr e ↦
          let ih = apply-counts now cs (mark_candidate now c db) in
          let more = length-mark_candidate now c db e in
          rw (e, apply_candidates) (omega (arith, ih.0), omega (arith, ih.1, more))
    ]

others :
    (s : Snapshot) (ss : List Snapshot) (audits : List Audit)
    → All (λ a. any (λ r. r.id == a.snapshot_id) (s ∷ ss) ≡ true) audits
    → All
        (λ a. any (λ r. r.id == a.snapshot_id) ss ≡ true)
        (keep (λ a. not (s.id == a.snapshot_id)) audits)
others s ss [] h = tt
others s ss (a ∷ audits) h = elim (Bool-cases (s.id == a.snapshot_id)) [
  | inl e ↦ rw e (others s ss audits h.1)
  | inr e ↦ rw e ((sym (rw e refl) ∙ h.0), others s ss audits h.1)
]

-- The audit rows that point to a row of the list go.
delete_audits-All :
    (ss : List Snapshot) (audits : List Audit)
    → All (λ a. any (λ s. s.id == a.snapshot_id) ss ≡ true) audits
    → delete_audits ss audits ≡ []
unfolding delete_audits
delete_audits-All [] [] h = refl
delete_audits-All [] (a ∷ audits) h = absurd cc
delete_audits-All (s ∷ ss) audits h =
    delete_audits-All ss (keep (λ a. not (s.id == a.snapshot_id)) audits) (others s ss audits h)

IsMarked-listed :
    (i : ℕ) (ss : List Snapshot) → IsMarked i ss → any (λ s. s.id == i) (marked_rows ss) ≡ true
unfolding is_restorable
IsMarked-listed i [] h = h
IsMarked-listed i (s ∷ ss) h = ground (arith, IsMarked-listed i ss)

All-listed :
    (ss : List Snapshot) (audits : List Audit)
    → All (λ a. IsMarked a.snapshot_id ss) audits
    → All (λ a. any (λ s. s.id == a.snapshot_id) (marked_rows ss) ≡ true) audits
All-listed ss [] h = tt
All-listed ss (a ∷ audits) h = (IsMarked-listed a.snapshot_id ss h.0, All-listed ss audits h.1)

marked_rows-fresh : (ss : List Snapshot) → AllFresh ss → length (marked_rows ss) ≡ 0
unfolding is_restorable
marked_rows-fresh [] h = refl
marked_rows-fresh (s ∷ ss) h = rw h.0 (marked_rows-fresh ss h.1)

restore-IsUndone :
    (base : List Snapshot) (db : Database)
    → IsUndone base db
    → (restore_deduped_snapshots none db).0 ≡ record { snapshots = base; audits = [] }
unfolding restore_deduped_snapshots
restore-IsUndone base db h =
    ap
      (λ ss. record { snapshots = ss; audits = delete_audits (marked_rows db.snapshots) db.audits })
      (map-restored db.snapshots ∙ h.0)
    ∙ ap (λ audits. record { snapshots = base; audits = audits })
        (delete_audits-All (marked_rows db.snapshots) db.audits
          (All-listed db.snapshots db.audits h.1))

restored-count :
    (end : Database) {m n : ℕ}
    → m ≡ 0
    → length (marked_rows end.snapshots) ≡ m + n
    → (restore_deduped_snapshots none end).1 ≡ n
unfolding restore_deduped_snapshots
restored-count end z e = omega (arith, z, e)

-- From a table in which no row is marked and that has no audit rows, marking any candidates and
-- restoring all jobs gives the table back, restores as many rows as were marked, and each candidate
-- was either marked or skipped.
pub restore-deduplicate_snapshots :
    (now : ℕ) (cs : List DedupCandidate) (ss : List Snapshot)
    → AllFresh ss
    → let db : Database = record { snapshots = ss; audits = [] } in
      let (marked, result) = deduplicate_snapshots false now cs db in
      (restore_deduped_snapshots none marked ≡ (db, result.deduped_count))
      × (result.deduped_count + result.skipped_count ≡ length cs)
unfolding deduplicate_snapshots
restore-deduplicate_snapshots now cs ss h =
    let db : Database = record { snapshots = ss; audits = [] } in
    let end = (apply_candidates now cs db).0 in
    let counts = apply-counts now cs db in
    let undone =
      restore-IsUndone ss end (apply-IsUndone now ss cs db (map-cleared-fresh ss h, tt)) in
    let same = restored-count end (marked_rows-fresh ss h) counts.1 in
    (
      ap (λ d. (d, (restore_deduped_snapshots none end).1)) undone ∙ ap (λ n. (db, n)) same,
      counts.0,
    )
