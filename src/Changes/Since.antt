-- ===== src/Changes/Since.antt =====
-- src/ha_backend/changes.py: compute_changes_since.
use healtharchive.Base.{
  ℕ, suc, ◌-◌, ◌*◌, String, Bool, true, false, ◌&&◌, ◌||◌, not, Option, some, List, [], ◌∷◌, ltb,
  leb, ◌==◌, keep, num_mem, sort_by, is_some, if◌then◌else◌,
}
use healtharchive.Base.First.{first_by}
use healtharchive.Changes.{Snapshot, SnapshotChange}
use healtharchive.Changes.Pair.{Pages, compute_change_for_snapshot_pair}
use healtharchive.Changes.Backfill.{
  ChangeComputeResult, no_result, same_group, Run, pass_over, with_event, nothing, Database,
  SourceFilter, source_filter, in_source, changed_ids, answer,
}

-- ORDER BY capture_timestamp, id
unfoldable pub time_le : Snapshot → Snapshot → Bool
time_le a b =
    ltb a.capture_timestamp b.capture_timestamp
    || (a.capture_timestamp == b.capture_timestamp && leb a.id b.id)

-- A capture of the same source and group at a strictly earlier time.
unfoldable pub is_earlier : Snapshot → Snapshot → Bool
is_earlier s t = same_group t s && ltb t.capture_timestamp s.capture_timestamp

-- ORDER BY capture_timestamp DESC, id DESC
unfoldable pub newer : Snapshot → Snapshot → Bool
newer a b =
    ltb b.capture_timestamp a.capture_timestamp
    || (a.capture_timestamp == b.capture_timestamp && ltb b.id a.id)

unfoldable pub latest_before : Snapshot → List Snapshot → Option Snapshot
latest_before s table = first_by (is_earlier s) newer table

module _ (pages : Pages) (dry_run : Bool) (max_events : ℕ) (table : List Snapshot) where
  abbrev pub since_event : Snapshot → SnapshotChange
  since_event s = compute_change_for_snapshot_pair pages s (latest_before s table) "incremental"

  -- The loop; a row that has a change is passed over, the limit is tested after an event is made.
  unfoldable pub since_rows : List ℕ → ℕ → List Snapshot → Run
  since_rows existing created [] = nothing
  since_rows existing created (s ∷ rest) = elim (num_mem s.id existing) [
    | true ↦ pass_over (since_rows existing created rest)
    | false ↦ with_event (since_event s) (elim (leb max_events (suc created)) [
      | true ↦ nothing
      | false ↦ since_rows (if dry_run then existing else s.id ∷ existing) (suc created) rest
    ])
  ]

unfoldable pub since_query : ℕ → SourceFilter → List Snapshot → List Snapshot
since_query since_ts filter snapshots = sort_by time_le (
    keep
      (λ s.
        is_some s.normalized_url_group && (leb since_ts s.capture_timestamp && in_source filter s))
      snapshots)

-- `now` is what _today_utc answers; times are seconds.
unfoldable pub compute_changes_since :
    Pages
    → ℕ
    → Bool
    → ℕ
    → Option String
    → ℕ
    → Bool
    → Database
    → Database × Option ChangeComputeResult
compute_changes_since pages now enabled since_days source_code max_events dry_run db =
    let filter = source_filter source_code db.sources in
    let rows = since_query (now - since_days * 86400) filter db.snapshots in
    let run = since_rows pages dry_run max_events db.snapshots (changed_ids db.changes) 0 rows in
    if not enabled then (db, some no_result) else answer dry_run db run filter
