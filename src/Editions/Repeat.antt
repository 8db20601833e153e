-- ===== src/Editions/Repeat.antt =====
-- src/ha_backend/annual_editions.py: a plan of a source whose shards were created.
use mathlib.Core.Path.{subst}
use healtharchive.Base.{
  ℕ, ◌≡◌, refl, sym, ap, ◌∙◌, inl, inr, String, Bool, true, false, ◌&&◌, not, none, some, List, [],
  ◌∷◌, ◌++◌, ◌==◌, is_some, any, arith, Bool-cases, Option-cases,
}
use healtharchive.Editions.{ArchiveJob, AnnualEdition}
use healtharchive.Editions.Salvage.{
  Database, find_edition, get_or_create_annual_edition, new_edition,
}
use healtharchive.Editions.Shards.{Outside, ShardPlanItem, is_legacy, existing_jobs}
use healtharchive.Editions.Plan.{plan_edition, plan_source, missing_of, no_gaps}
use healtharchive.Editions.Planned.{is_create, AreServed, plan_seeds-served, skip_all-creates}
use healtharchive.Editions.Replan.{AreNew, plan_seeds-Made, run}
use healtharchive.Editions.Legacy.{legacy_kept, AreServed-none}

module _ (o : Outside) (code : String) (source_id year : ℕ) (seeds : List String) where
  abbrev planned : Bool → AnnualEdition → Database → Database × List ShardPlanItem
  planned apply e db = plan_edition o code source_id year apply seeds e db

  abbrev has_legacy : AnnualEdition → List ArchiveJob → Bool
  has_legacy e jobs = any is_legacy (existing_jobs e.id jobs)

  -- With every seed served no job is planned.
  planned-served :
      (apply : Bool) (e : AnnualEdition) (db : Database)
      → AreServed e.id db.jobs (missing_of o (has_legacy e db.jobs) e) 1 seeds
      → any is_create (planned apply e db).1 ≡ false
  unfolding plan_edition
  planned-served apply e db s =
      elim (Bool-cases (has_legacy e db.jobs && not (is_some e.generated_at))) [
        | inl a ↦ rw (a, plan_edition) (skip_all-creates code year _ 1 seeds)
        | inr a ↦ elim (Bool-cases (has_legacy e db.jobs && no_gaps e)) [
          | inl b ↦ rw (a, b, plan_edition) (skip_all-creates code year _ 1 seeds)
          | inr b ↦
              rw (a, b, plan_edition)
                (plan_seeds-served o code source_id year apply e db.jobs
                  (missing_of o (has_legacy e db.jobs) e) 1 seeds db.jobs s)
        ]
      ]

  -- What was served for the shards that there were is served for those with the new ones.
  served_after :
      (e : AnnualEdition) (known new : List ArchiveJob)
      → AreNew e.id known new
      → AreServed e.id (known ++ new) (missing_of o (has_legacy e known) e) 1 seeds
      → AreServed e.id (known ++ new) (missing_of o (has_legacy e (known ++ new)) e) 1 seeds
  served_after e known new fresh s = elim (Bool-cases (has_legacy e known)) [
    | inl l ↦
        subst (λ b. AreServed e.id (known ++ new) (missing_of o b e) 1 seeds)
          (l ∙ sym (legacy_kept e.id known new fresh l)) s
    | inr l ↦
        AreServed-none e.id (known ++ new) (missing_of o (has_legacy e (known ++ new)) e) 1 seeds
          (subst (λ b. AreServed e.id (known ++ new) (missing_of o b e) 1 seeds) l s)
  ]

  planned_again :
      (apply : Bool) (e : AnnualEdition) (db : Database)
      → any is_create (planned apply e (planned true e db).0).1 ≡ false
  unfolding plan_edition
  planned_again apply e db =
      elim (Bool-cases (has_legacy e db.jobs && not (is_some e.generated_at))) [
        | inl a ↦
            let stored : (planned true e db).0 ≡ db = rw (a, plan_edition) refl in
            subst (λ d. any is_create (planned apply e d).1 ≡ false) (sym stored)
              (rw (a, plan_edition) (skip_all-creates code year _ 1 seeds))
        | inr a ↦ elim (Bool-cases (has_legacy e db.jobs && no_gaps e)) [
          | inl b ↦
              let stored : (planned true e db).0 ≡ db = rw (a, b, plan_edition) refl in
              subst (λ d. any is_create (planned apply e d).1 ≡ false) (sym stored)
                (rw (a, b, plan_edition) (skip_all-creates code year _ 1 seeds))
          | inr b ↦
              let missing = missing_of o (has_legacy e db.jobs) e in
              let after = run o code source_id year e db.jobs missing 1 seeds db.jobs in
              let m = plan_seeds-Made o code source_id year e db.jobs missing 1 seeds db.jobs in
              let stored : (planned true e db).0 ≡ record db { jobs = after } =
                rw (a, b, plan_edition) refl in
              subst (λ d. any is_create (planned apply e d).1 ≡ false) (sym stored)
                (planned-served apply e (record db { jobs = after })
                  (subst (λ jobs. AreServed e.id jobs (missing_of o (has_legacy e jobs) e) 1 seeds)
                    (sym m.appended) (served_after e db.jobs m.new m.are_new m.served)))
        ]
      ]

  planned-editions :
      (e : AnnualEdition) (db : Database) → (planned true e db).0.editions ≡ db.editions
  unfolding plan_edition
  planned-editions e db = elim (Bool-cases (has_legacy e db.jobs && not (is_some e.generated_at))) [
    | inl a ↦ rw (a, plan_edition) refl
    | inr a ↦ elim (Bool-cases (has_legacy e db.jobs && no_gaps e)) [
      | inl b ↦ rw (a, b, plan_edition) refl
      | inr b ↦ rw (a, b, plan_edition) refl
    ]
  ]

find_edition_made :
    (source_id year : ℕ) (m : AnnualEdition) (editions : List AnnualEdition)
    → (m.source_id == source_id && m.year == year) ≡ true
    → find_edition source_id year editions ≡ none
    → find_edition source_id year (editions ++ (m ∷ [])) ≡ some m
unfolding find_edition
find_edition_made source_id year m [] h f = rw (h) refl
find_edition_made source_id year m (e ∷ editions) h f =
    elim (Bool-cases (e.source_id == source_id && e.year == year)) [
      | inl s ↦ absurd (ground arith)
      | inr s ↦ rw (s) (find_edition_made source_id year m editions h (sym (rw (s) refl) ∙ f))
    ]

module _ (new_id : List AnnualEdition → ℕ) (source_id year : ℕ)
    (editions : List AnnualEdition) where
  abbrev got : List AnnualEdition → List AnnualEdition × (AnnualEdition × Bool)
  got l = get_or_create_annual_edition new_id source_id year l

  abbrev fresh_edition : AnnualEdition
  fresh_edition = new_edition (new_id editions) source_id year

  got_found :
      (e : AnnualEdition)
      → find_edition source_id year editions ≡ some e
      → got editions ≡ (editions, (e, false))
  unfolding get_or_create_annual_edition
  got_found e n = rw (n, get_or_create_annual_edition) refl

  got_made :
      find_edition source_id year editions ≡ none
      → got editions ≡ (editions ++ (fresh_edition ∷ []), (fresh_edition, true))
  unfolding get_or_create_annual_edition
  got_made n = rw (n, get_or_create_annual_edition) refl

  got_made_again :
      find_edition source_id year editions ≡ none
      → got (editions ++ (fresh_edition ∷ []))
        ≡ (editions ++ (fresh_edition ∷ []), (fresh_edition, false))
  unfolding get_or_create_annual_edition
  got_made_again n =
      rw
        (
          find_edition_made source_id year fresh_edition editions (ground arith) n,
          get_or_create_annual_edition,
        )
        refl

-- Asked again the table gives the edition that it gave, and makes none.
pub get_or_create-again :
    (new_id : List AnnualEdition → ℕ) (source_id year : ℕ) (editions : List AnnualEdition)
    → let (after, (e, created)) = get_or_create_annual_edition new_id source_id year editions in
      get_or_create_annual_edition new_id source_id year after ≡ (after, (e, false))
get_or_create-again new_id source_id year editions =
    let again : List AnnualEdition × (AnnualEdition × Bool) → Type 0 =
      λ r. get_or_create_annual_edition new_id source_id year r.0 ≡ (r.0, (r.1.0, false)) in
    elim (Option-cases (find_edition source_id year editions)) [
      | inl n ↦
          subst again (sym (got_made new_id source_id year editions n))
            (got_made_again new_id source_id year editions n)
      | inr (e, n) ↦
          subst again (sym (got_found new_id source_id year editions e n))
            (got_found new_id source_id year editions e n)
    ]

-- A source whose shards were created is planned again without a shard to create, whether the second
-- plan is applied or not.
pub plan_source-again :
    (o : Outside) (code : String) (source_id year : ℕ) (apply : Bool) (seeds : List String)
    (db : Database)
    → any is_create
        (plan_source o code source_id year apply seeds
          (plan_source o code source_id year true seeds db).0).1
      ≡ false
unfolding plan_source
plan_source-again o code source_id year apply seeds db =
    let r = get_or_create_annual_edition o.new_edition_id source_id year db.editions in
    let e = r.1.0 in
    let got_for = get_or_create_annual_edition o.new_edition_id source_id year in
    let before : Database = record db { editions = r.0 } in
    let after : Database = (plan_edition o code source_id year true seeds e before).0 in
    let kept : after.editions ≡ r.0 = planned-editions o code source_id year seeds e before in
    let creates : AnnualEdition → List AnnualEdition → Bool = λ x l.
      any is_create
        (plan_edition o code source_id year apply seeds x (record after { editions = l })).1 in
    ap (λ l. creates (got_for l).1.0 (got_for l).0) kept
    ∙ ap (λ g. creates g.1.0 g.0) (get_or_create-again o.new_edition_id source_id year db.editions)
    ∙ ap (creates e) (sym kept)
    ∙ planned_again o code source_id year seeds apply e before
