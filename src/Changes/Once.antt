-- ===== src/Changes/Once.antt =====
-- src/ha_backend/changes.py: compute_changes_since gives no snapshot a second change event.
use healtharchive.Base.{
  ℕ, suc, ◌-◌, ◌*◌, ◌≡◌, refl, sym, ap, ◌∙◌, inl, inr, String, Bool, true, false, ◌||◌, Option,
  List, [], ◌∷◌, ◌++◌, leb, ◌==◌, num_mem, arith, Bool-cases,
}
use mathlib.Core.Path.{subst}
use healtharchive.Changes.{Snapshot, SnapshotChange}
use healtharchive.Changes.Pair.{Pages}
use healtharchive.Changes.Backfill.{
  Database, Run, with_event, pass_over, nothing, answer, SourceFilter, every_source, source_missing,
  one_source, source_filter, changed_ids,
}
use healtharchive.Changes.Interrupt.{compute_change-to_snapshot_id}
use healtharchive.Changes.Resumed.{changed_ids-append}
use healtharchive.Changes.Since.{
  since_rows, since_event, since_query, latest_before, compute_changes_since,
}

-- No number of the second list is in the first, and none is there twice.
abbrev pub AreNewOnce : List ℕ → List ℕ → Type 0
AreNewOnce seen [] = Unit
AreNewOnce seen (i ∷ is) = (num_mem i seen ≡ false) × AreNewOnce (i ∷ seen) is

AreNewOnce-equal :
    (a b is : List ℕ) → ((n : ℕ) → num_mem n a ≡ num_mem n b) → AreNewOnce a is → AreNewOnce b is
AreNewOnce-equal a b [] h f = tt
AreNewOnce-equal a b (i ∷ is) h f =
    (sym (h i) ∙ f.0, AreNewOnce-equal (i ∷ a) (i ∷ b) is (λ n. ap (λ x. n == i || x) (h n)) f.1)

AreNewOnce-append :
    (seen known a b : List ℕ)
    → ((n : ℕ) → num_mem n known ≡ num_mem n seen || num_mem n a)
    → AreNewOnce seen a
    → AreNewOnce known b
    → AreNewOnce seen (a ++ b)
AreNewOnce-append seen known [] b h f g = AreNewOnce-equal known seen b (λ n. h n ∙ ground arith) g
AreNewOnce-append seen known (i ∷ a) b h f g =
    (f.0, AreNewOnce-append (i ∷ seen) known a b (λ n. h n ∙ ground arith) f.1 g)

stored-AreNewOnce :
    (db : Database) (r : Run)
    → AreNewOnce [] (changed_ids db.changes)
    → AreNewOnce (changed_ids db.changes) (changed_ids r.events)
    → AreNewOnce [] (changed_ids (db.changes ++ r.events))
stored-AreNewOnce db r h g = subst (AreNewOnce []) (sym (changed_ids-append db.changes r.events)) (
    AreNewOnce-append [] (changed_ids db.changes) (changed_ids db.changes) (changed_ids r.events)
      (λ n. refl) h g)

module _ (pages : Pages) (limit : ℕ) (table : List Snapshot) where
  abbrev run : List ℕ → ℕ → List Snapshot → Run
  run existing created rows = since_rows pages false limit table existing created rows

  abbrev event : Snapshot → SnapshotChange
  event s = since_event pages false limit table s

  rows_done :
      (existing : List ℕ) (created : ℕ) (s : Snapshot) (rest : List Snapshot)
      → num_mem s.id existing ≡ true
      → run existing created (s ∷ rest) ≡ pass_over (run existing created rest)
  unfolding since_rows
  rows_done existing created s rest e = rw (e, since_rows) refl

  rows_last :
      (existing : List ℕ) (created : ℕ) (s : Snapshot) (rest : List Snapshot)
      → num_mem s.id existing ≡ false
      → leb limit (suc created) ≡ true
      → run existing created (s ∷ rest) ≡ with_event (event s) nothing
  unfolding since_rows
  rows_last existing created s rest e full = rw (e, full, since_rows) refl

  rows_more :
      (existing : List ℕ) (created : ℕ) (s : Snapshot) (rest : List Snapshot)
      → num_mem s.id existing ≡ false
      → leb limit (suc created) ≡ false
      → run existing created (s ∷ rest)
        ≡ with_event (event s) (run (s.id ∷ existing) (suc created) rest)
  unfolding since_rows
  rows_more existing created s rest e more = rw (e, more, since_rows) refl

  abbrev Good : List ℕ → Run → Type 0
  Good existing r = AreNewOnce existing (changed_ids r.events)

  event-Good :
      (existing : List ℕ) (s : Snapshot) (r : Run)
      → num_mem s.id existing ≡ false
      → Good (s.id ∷ existing) r
      → Good existing (with_event (event s) r)
  unfolding changed_ids
  event-Good existing s r e g =
      subst (λ i. AreNewOnce existing (i ∷ changed_ids r.events))
        (sym (compute_change-to_snapshot_id pages s (latest_before s table) "incremental")) (e, g)

  since_rows-Good :
      (existing : List ℕ) (created : ℕ) (rows : List Snapshot)
      → Good existing (run existing created rows)
  unfolding since_rows changed_ids
  since_rows-Good existing created [] = tt
  since_rows-Good existing created (s ∷ rest) = elim (Bool-cases (num_mem s.id existing)) [
    | inl e ↦
        subst (Good existing) (sym (rows_done existing created s rest e))
          (since_rows-Good existing created rest)
    | inr e ↦ elim (Bool-cases (leb limit (suc created))) [
      | inl full ↦
          subst (Good existing) (sym (rows_last existing created s rest e full))
            (event-Good existing s nothing e tt)
      | inr more ↦ subst (Good existing) (sym (rows_more existing created s rest e more)) (
          event-Good existing s (run (s.id ∷ existing) (suc created) rest) e
            (since_rows-Good (s.id ∷ existing) (suc created) rest))
    ]
  ]

answer-AreNewOnce :
    (filter : SourceFilter) (dry : Bool) (db : Database) (r : Run)
    → AreNewOnce [] (changed_ids db.changes)
    → AreNewOnce (changed_ids db.changes) (changed_ids r.events)
    → AreNewOnce [] (changed_ids (answer dry db r filter).0.changes)
answer-AreNewOnce source_missing dry db r h g = h
answer-AreNewOnce every_source true db r h g = h
answer-AreNewOnce (one_source i) true db r h g = h
answer-AreNewOnce every_source false db r h g = stored-AreNewOnce db r h g
answer-AreNewOnce (one_source i) false db r h g = stored-AreNewOnce db r h g

-- Where no snapshot has two change events, an incremental computation that is no dry run leaves none
-- with two, whatever its days, source and limit, also where two rows have one id.
pub compute_changes_since-AreNewOnce :
    (pages : Pages) (now : ℕ) (enabled : Bool) (days : ℕ) (code : Option String) (limit : ℕ)
    (db : Database)
    → AreNewOnce [] (changed_ids db.changes)
    → AreNewOnce []
        (changed_ids (compute_changes_since pages now enabled days code limit false db).0.changes)
unfolding compute_changes_since
compute_changes_since-AreNewOnce pages now false days code limit db h = h
compute_changes_since-AreNewOnce pages now true days code limit db h =
    let filter = source_filter code db.sources in
    let rows = since_query (now - days * 86400) filter db.snapshots in
    let known = changed_ids db.changes in
    answer-AreNewOnce filter false db (since_rows pages false limit db.snapshots known 0 rows) h
      (since_rows-Good pages limit db.snapshots known 0 rows)
