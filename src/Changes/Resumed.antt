-- ===== src/Changes/Resumed.antt =====
-- src/ha_backend/changes.py: compute_changes_backfill, called again on what it stored.
use healtharchive.Base.{
  ℕ, suc, ◌+◌, ◌≡◌, refl, sym, ap, ◌∙◌, String, Bool, true, false, ◌&&◌, Option, none, List, ◌++◌,
  keep, is_some,
}
use mathlib.Core.List.{map-append, append_assoc}
use healtharchive.Changes.{Snapshot, SnapshotChange}
use healtharchive.Changes.Pair.{Pages}
use healtharchive.Changes.Backfill.{
  Database, Run, answer, SourceFilter, every_source, source_missing, one_source, source_filter,
  in_source, backfill_query, changed_ids, row_le, stored, backfill_rows, compute_changes_backfill,
}
use healtharchive.Changes.Resume.{AreDistinct}
use healtharchive.Changes.Distinct.{AreDistinct-keep, AreDistinct-sort_by}
use healtharchive.Changes.Interrupt.{events, backfill_rows-sum}

pub changed_ids-append :
    (a b : List SnapshotChange) → changed_ids (a ++ b) ≡ changed_ids a ++ changed_ids b
unfolding changed_ids
changed_ids-append a b = map-append (λ c. c.to_snapshot_id) a b

module _ (pages : Pages) (groups_le : Snapshot → Snapshot → Bool) where
  pub query-AreDistinct :
      (filter : SourceFilter) (rows : List Snapshot)
      → AreDistinct rows
      → AreDistinct (backfill_query groups_le filter rows)
  unfolding backfill_query
  query-AreDistinct filter rows d =
      let p : Snapshot → Bool = λ s. is_some s.normalized_url_group && in_source filter s in
      AreDistinct-sort_by (row_le groups_le) (keep p rows) (AreDistinct-keep p rows d)

  abbrev run_of : SourceFilter → ℕ → Database → Run
  run_of filter limit db =
      backfill_rows pages false limit (changed_ids db.changes) none 0
        (backfill_query groups_le filter db.snapshots)

  stored_twice :
      (filter : SourceFilter) (m n : ℕ) (db : Database)
      → AreDistinct db.snapshots
      → let between = stored false db (run_of filter (suc m) db) in
        Path Database
          (stored false between (run_of filter (suc n) between))
          (stored false db (run_of filter (suc m + suc n) db))
  stored_twice filter m n db d =
      let rows = backfill_query groups_le filter db.snapshots in
      let known = changed_ids db.changes in
      let apart = query-AreDistinct filter db.snapshots d in
      let run : ℕ → List ℕ → List SnapshotChange = events pages none rows apart in
      let first = run (suc m) known in
      ap (λ l. record db { changes = l })
        (ap (λ k. db.changes ++ first ++ run (suc n) k) (changed_ids-append db.changes first)
          ∙ append_assoc db.changes first (run (suc n) (known ++ changed_ids first))
          ∙ ap (λ l. db.changes ++ l) (backfill_rows-sum pages none rows apart m n known))

  abbrev step : SourceFilter → ℕ → Database → Database
  step filter limit db = (answer false db (run_of filter limit db) filter).0

  step-step :
      (filter : SourceFilter) (m n : ℕ) (db : Database)
      → AreDistinct db.snapshots
      → step filter (suc n) (step filter (suc m) db) ≡ step filter (suc m + suc n) db
  step-step every_source m n db d = stored_twice every_source m n db d
  step-step source_missing m n db d = refl
  step-step (one_source i) m n db d = stored_twice (one_source i) m n db d

  step-sources :
      (filter : SourceFilter) (limit : ℕ) (db : Database)
      → (step filter limit db).sources ≡ db.sources
  step-sources every_source limit db = refl
  step-sources source_missing limit db = refl
  step-sources (one_source i) limit db = refl

  -- The database after a call that is no dry run, with change tracking enabled.
  abbrev pub after : Option String → ℕ → Database → Database
  after code limit db = (compute_changes_backfill pages groups_le true code limit false db).0

  after_lem :
      (code : Option String) (limit : ℕ) (db : Database)
      → after code limit db ≡ step (source_filter code db.sources) limit db
  unfolding compute_changes_backfill
  after_lem code limit db = refl

  -- A backfill that its limit stopped and that is called again leaves the same database as one call
  -- with the sum of the two limits, where both limits are positive and no two snapshots have one id.
  pub compute_changes_backfill-resumes :
      (code : Option String) (m n : ℕ) (db : Database)
      → AreDistinct db.snapshots
      → (compute_changes_backfill pages groups_le true code
          (suc n)
          false
          (compute_changes_backfill pages groups_le true code (suc m) false db).0).0
        ≡ (compute_changes_backfill pages groups_le true code (suc m + suc n) false db).0
  compute_changes_backfill-resumes code m n db d =
      let filter = source_filter code db.sources in
      ap (after code (suc n)) (after_lem code (suc m) db)
      ∙ after_lem code (suc n) (step filter (suc m) db)
      ∙ ap (λ s. step (source_filter code s) (suc n) (step filter (suc m) db))
          (step-sources filter (suc m) db)
      ∙ step-step filter m n db d
      ∙ sym (after_lem code (suc m + suc n) db)
