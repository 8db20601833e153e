-- ===== src/Changes/Backfill.antt =====
-- src/ha_backend/changes.py: compute_changes_backfill.
use healtharchive.Base.{
  ℕ, suc, String, Bool, true, false, ◌&&◌, ◌||◌, not, Option, none, some, List, [], ◌∷◌, ◌++◌, map,
  ltb, leb, ◌==◌, str_eq, keep, length, num_mem, sort_by, is_some, if◌then◌else◌,
}
use healtharchive.Changes.{Snapshot, SnapshotChange}
use healtharchive.Changes.Pair.{Pages, compute_change_for_snapshot_pair}

pub record ChangeComputeResult : Type 0 where
  pub created : ℕ
  pub skipped : ℕ
  pub errors : ℕ

abbrev pub no_result : ChangeComputeResult
no_result = record { created = 0; skipped = 0; errors = 0 }

abbrev pub same_number : Option ℕ → Option ℕ → Bool
same_number none none = true
same_number none (some b) = false
same_number (some a) none = false
same_number (some a) (some b) = a == b

abbrev pub same_text : Option String → Option String → Bool
same_text none none = true
same_text none (some b) = false
same_text (some a) none = false
same_text (some a) (some b) = str_eq a b

-- Equal pairs of source and group.
unfoldable pub same_group : Snapshot → Snapshot → Bool
same_group a b =
    same_number a.source_id b.source_id && same_text a.normalized_url_group b.normalized_url_group

-- What a row is compared with: the row before it, if that is of its group.
unfoldable pub previous : Option Snapshot → Snapshot → Option Snapshot
previous none s = none
previous (some last) s = if same_group s last then some last else none

-- The events of a run in their order, and the rows that were passed over.
pub record Run : Type 0 where
  pub events : List SnapshotChange
  pub skipped : ℕ

abbrev pub pass_over : Run → Run
pass_over r = record r { skipped = suc r.skipped }

abbrev pub with_event : SnapshotChange → Run → Run
with_event e r = record r { events = e ∷ r.events }

abbrev pub nothing : Run
nothing = record { events = []; skipped = 0 }

module _ (pages : Pages) (dry_run : Bool) (max_events : ℕ) where
  abbrev pub event_of : Option Snapshot → Snapshot → SnapshotChange
  event_of last s = compute_change_for_snapshot_pair pages s (previous last s) "backfill"

  -- The loop over the ordered rows. `last` is the row before, whose pair of source and group is the
  -- `last_group_key` of the source; the limit is tested after an event is made.
  unfoldable pub backfill_rows : List ℕ → Option Snapshot → ℕ → List Snapshot → Run
  backfill_rows existing last created [] = nothing
  backfill_rows existing last created (s ∷ rest) = elim (num_mem s.id existing) [
    | true ↦ pass_over (backfill_rows existing (some s) created rest)
    | false ↦ with_event (event_of last s) (elim (leb max_events (suc created)) [
      | true ↦ nothing
      | false ↦
          backfill_rows (if dry_run then existing else s.id ∷ existing) (some s) (suc created) rest
    ])
  ]

-- ORDER BY source_id, normalized_url_group, capture_timestamp, id; `groups_le` is the database's order
-- of the pairs of source and group.
unfoldable pub row_le : (Snapshot → Snapshot → Bool) → Snapshot → Snapshot → Bool
row_le groups_le a b =
    if same_group a b
    then ltb a.capture_timestamp b.capture_timestamp
      || (a.capture_timestamp == b.capture_timestamp && leb a.id b.id)
    else groups_le a b

-- The tables that are read and written, and the source codes with their ids.
pub record Database : Type 0 where
  pub snapshots : List Snapshot
  pub changes : List SnapshotChange
  pub sources : List (String × ℕ)

unfoldable pub find_source : String → List (String × ℕ) → Option ℕ
find_source code [] = none
find_source code ((c, i) ∷ rest) =
    let more = find_source code rest in if str_eq c code then some i else more

-- No filter, a filter by the id of a source, or ValueError("Source not found.").
pub data SourceFilter : Type 0 where
  every_source source_missing : SourceFilter
  one_source : ℕ → SourceFilter

unfoldable pub source_filter : Option String → List (String × ℕ) → SourceFilter
source_filter none sources = every_source
source_filter (some code) sources =
    if str_eq code ""
    then every_source
    else elim (find_source code sources) [ none ↦ source_missing | some i ↦ one_source i ]

unfoldable pub in_source : SourceFilter → Snapshot → Bool
in_source every_source s = true
in_source source_missing s = false
in_source (one_source i) s = same_number s.source_id (some i)

-- The rows of the query.
unfoldable pub backfill_query :
    (Snapshot → Snapshot → Bool) → SourceFilter → List Snapshot → List Snapshot
backfill_query groups_le filter snapshots =
    sort_by (row_le groups_le)
      (keep (λ s. is_some s.normalized_url_group && in_source filter s) snapshots)

unfoldable pub changed_ids : List SnapshotChange → List ℕ
changed_ids changes = map (λ c. c.to_snapshot_id) changes

abbrev pub result_of : Run → ChangeComputeResult
result_of r = record { created = length r.events; skipped = r.skipped; errors = 0 }

abbrev pub stored : Bool → Database → Run → Database
stored dry_run db r = if dry_run then db else record db { changes = db.changes ++ r.events }

-- A source that is missing is refused before any row is read.
abbrev pub answer : Bool → Database → Run → SourceFilter → Database × Option ChangeComputeResult
answer dry_run db run every_source = (stored dry_run db run, some (result_of run))
answer dry_run db run source_missing = (db, none)
answer dry_run db run (one_source i) = (stored dry_run db run, some (result_of run))

unfoldable pub compute_changes_backfill :
    Pages
    → (Snapshot → Snapshot → Bool)
    → Bool
    → Option String
    → ℕ
    → Bool
    → Database
    → Database × Option ChangeComputeResult
compute_changes_backfill pages groups_le enabled source_code max_events dry_run db =
    let filter = source_filter source_code db.sources in
    let rows = backfill_query groups_le filter db.snapshots in
    let run = backfill_rows pages dry_run max_events (changed_ids db.changes) none 0 rows in
    if not enabled then (db, some no_result) else answer dry_run db run filter
