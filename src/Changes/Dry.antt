-- ===== src/Changes/Dry.antt =====
-- src/ha_backend/changes.py: dry runs of compute_changes_backfill.
use healtharchive.Base.{
  ℕ, suc, ◌≡◌, refl, ap, ◌∙◌, inl, inr, String, Bool, true, false, Option, none, some, List, [],
  ◌∷◌, leb, ◌==◌, any, num_mem, arith, Bool-cases,
}
use healtharchive.Changes.{Snapshot}
use healtharchive.Changes.Pair.{Pages}
use healtharchive.Changes.Backfill.{
  Database, Run, answer, SourceFilter, every_source, source_missing, one_source, source_filter,
  backfill_query, changed_ids, backfill_rows, compute_changes_backfill, pass_over, with_event,
  event_of,
}
use healtharchive.Changes.Resume.{AreDistinct}
use healtharchive.Changes.Resumed.{query-AreDistinct}

-- Two lists of ids have the same rows in them.
abbrev Agree : List ℕ → List ℕ → List Snapshot → Type 0
Agree a b [] = Unit
Agree a b (s ∷ rest) = (num_mem s.id a ≡ num_mem s.id b) × Agree a b rest

Agree-refl : (a : List ℕ) (rows : List Snapshot) → Agree a a rows
Agree-refl a [] = tt
Agree-refl a (s ∷ rest) = (refl, Agree-refl a rest)

Agree-grown :
    (i : ℕ) (a b : List ℕ) (rows : List Snapshot)
    → any (λ t. t.id == i) rows ≡ false
    → Agree a b rows
    → Agree a (i ∷ b) rows
Agree-grown i a b [] h g = tt
Agree-grown i a b (s ∷ rest) h g =
    let other : (s.id == i) ≡ false = ground arith in
    let later : any (λ t. t.id == i) rest ≡ false = ground arith in
    (g.0 ∙ rw (other) refl, Agree-grown i a b rest later g.1)

module _ (pages : Pages) (limit : ℕ) where
  backfill_rows_dry :
      (a b : List ℕ) (last : Option Snapshot) (created : ℕ) (rows : List Snapshot)
      → AreDistinct rows
      → Agree a b rows
      → backfill_rows pages true limit a last created rows
        ≡ backfill_rows pages false limit b last created rows
  unfolding backfill_rows
  backfill_rows_dry a b last created [] d g = refl
  backfill_rows_dry a b last created (s ∷ rest) d g = elim (Bool-cases (num_mem s.id b)) [
    | inl e ↦
        rw (g.0, e, backfill_rows)
          (ap pass_over (backfill_rows_dry a b (some s) created rest d.1 g.1))
    | inr e ↦ elim (Bool-cases (leb limit (suc created))) [
      | inl full ↦ rw (g.0, e, full, backfill_rows) refl
      | inr more ↦
          rw (g.0, e, more, backfill_rows)
            (ap (with_event (event_of pages true limit last s)) (
              backfill_rows_dry a (s.id ∷ b) (some s) (suc created) rest d.1
                (Agree-grown s.id a b rest d.0 g.1)))
    ]
  ]

answer_dry :
    (filter : SourceFilter) (db : Database) (r : Run)
    → answer true db r filter ≡ (db, (answer false db r filter).1)
answer_dry every_source db r = refl
answer_dry source_missing db r = refl
answer_dry (one_source i) db r = refl

-- A dry run changes nothing and answers what the run itself would answer, where no two snapshots have
-- one id.
pub compute_changes_backfill_dry :
    (pages : Pages) (groups_le : Snapshot → Snapshot → Bool) (enabled : Bool) (code : Option String)
    (limit : ℕ) (db : Database)
    → AreDistinct db.snapshots
    → compute_changes_backfill pages groups_le enabled code limit true db
      ≡ (db, (compute_changes_backfill pages groups_le enabled code limit false db).1)
unfolding compute_changes_backfill
compute_changes_backfill_dry pages groups_le false code limit db d = refl
compute_changes_backfill_dry pages groups_le true code limit db d =
    let filter = source_filter code db.sources in
    let rows = backfill_query groups_le filter db.snapshots in
    let known = changed_ids db.changes in
    ap (λ r. answer true db r filter)
      (backfill_rows_dry pages limit known known none 0 rows
        (query-AreDistinct pages groups_le filter db.snapshots d) (Agree-refl known rows))
    ∙ answer_dry filter db (backfill_rows pages false limit known none 0 rows)
