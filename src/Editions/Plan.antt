-- ===== src/Editions/Plan.antt =====
-- src/ha_backend/annual_editions.py: plan_or_create_annual_shards.
use healtharchive.Base.{
  ℕ, suc, String, Bool, true, false, ◌&&◌, not, Option, none, some, List, [], ◌∷◌, ◌++◌, ltb, ◌==◌,
  str_mem, any, is_some, if◌then◌else◌,
}
use healtharchive.Base.Text.{concat, show}
use healtharchive.Editions.{number, ArchiveJob, AnnualEdition}
use healtharchive.Editions.Salvage.{
  Database, find_source, get_or_create_annual_edition, requested_codes, annual_sources_ordered,
}
use healtharchive.Editions.Shards.{
  Action, create, skip, error, ShardPlanItem, Outside, seed_shard_key, is_legacy, existing_job,
  existing_jobs,
}

abbrev pub item : String → ℕ → String → String → Action → Option String → Option ℕ → ShardPlanItem
item code year key seed action reason job_id = record {
  source_code = code;
  year = year;
  shard_key = key;
  shard_kind = "seed_group";
  seeds = seed ∷ [];
  action = action;
  reason = reason;
  job_id = job_id;
}

abbrev pub missing_source : String → ℕ → ShardPlanItem
missing_source code year = record {
  source_code = code;
  year = year;
  shard_key = "missing-source";
  shard_kind = "seed_group";
  seeds = [];
  action = error;
  reason = some "missing source registry config or Source row";
  job_id = none;
}

-- Every seed of the source is passed over for one reason.
unfoldable pub skip_all : String → ℕ → String → ℕ → List String → List ShardPlanItem
skip_all code year reason index [] = []
skip_all code year reason index (seed ∷ seeds) =
    item code year (seed_shard_key seed index) seed skip (some reason) none
    ∷ skip_all code year reason (suc index) seeds

-- A seed that the ledger of the edition does not call missing.
abbrev pub is_covered : Option (List String) → String → Bool
is_covered none seed = false
is_covered (some urls) seed = not (str_mem seed urls)

module _ (o : Outside) (code : String) (source_id : ℕ) (year : ℕ) (apply : Bool)
    (e : AnnualEdition) where
  unfoldable pub new_shard : String → String → List ArchiveJob → ArchiveJob
  new_shard key seed jobs = record {
    id = o.new_job_id jobs;
    source_id = some source_id;
    edition_id = some e.id;
    name = concat code (concat "-" (concat (show year) (concat "0101-" key)));
    status = "queued";
    config = record (o.job_config code) {
      campaign_kind = some "annual";
      campaign_year = some (number year);
      edition_id = some e.id;
      campaign_shard_key = some (some key);
      campaign_shard_kind = some (some "seed_group");
      seeds = seed ∷ [];
    };
    shard_key = some key;
    shard_kind = some "seed_group";
    acceptance_state = some "pending";
    pages_failed = 0;
    created_at = o.now;
    coverage_report_path = none;
  }

  -- The loop over the seeds. `known` is what `existing` was before it; `missing` is None where no seed
  -- is called covered.
  unfoldable pub plan_seeds :
      List ArchiveJob
      → Option (List String)
      → ℕ
      → List String
      → List ArchiveJob
      → List ArchiveJob × List ShardPlanItem
  plan_seeds known missing index [] jobs = (jobs, [])
  plan_seeds known missing index (seed ∷ seeds) jobs =
      let key = seed_shard_key seed index in
      elim (is_covered missing seed) [
        | true ↦
            let (after, items) = plan_seeds known missing (suc index) seeds jobs in
            (
              after,
              item code year key seed skip (some "seed already covered by legacy salvage report")
                    none
                  ∷ items,
            )
        | false ↦ elim (existing_job e.id key known) [
          | some j ↦
              let (after, items) = plan_seeds known missing (suc index) seeds jobs in
              let reason : String = concat "existing job id=" (show j.id) in
              (after, item code year key seed skip (some reason) (some j.id) ∷ items)
          | none ↦ elim apply [
            | true ↦
                let made = new_shard key seed jobs in
                let (after, items) =
                  plan_seeds known missing (suc index) seeds (jobs ++ (made ∷ [])) in
                (after, item code year key seed create none (some made.id) ∷ items)
            | false ↦
                let (after, items) = plan_seeds known missing (suc index) seeds jobs in
                (after, item code year key seed create none none ∷ items)
          ]
        ]
      ]

abbrev pub no_gaps : AnnualEdition → Bool
no_gaps e = e.missing_url_count == 0 && (e.failed_url_count == 0 && e.needs_review_shard_count == 0)

-- What `missing_seed_urls` is for an edition with a legacy shard or without one.
abbrev pub missing_of : Outside → Bool → AnnualEdition → Option (List String)
missing_of o legacy e = if legacy then o.missing_seed_urls e else none

-- The plan of a source whose edition was found or made.
unfoldable pub plan_edition :
    Outside
    → String
    → ℕ
    → ℕ
    → Bool
    → List String
    → AnnualEdition
    → Database
    → Database × List ShardPlanItem
plan_edition o code source_id year apply seeds e db =
    let legacy = any is_legacy (existing_jobs e.id db.jobs) in
    if legacy && not (is_some e.generated_at)
    then (
      db,
      skip_all code year "legacy salvage report must be generated before fill-gap shards" 1 seeds,
    )
    else if legacy && no_gaps e
    then (db, skip_all code year "legacy salvage report has no documented gaps" 1 seeds)
    else let (jobs, items) =
        plan_seeds o code source_id year apply e db.jobs (missing_of o legacy e) 1 seeds db.jobs in
      (record db { jobs = jobs }, items)

-- The plan of a source whose registry entry and row were found.
unfoldable pub plan_source :
    Outside → String → ℕ → ℕ → Bool → List String → Database → Database × List ShardPlanItem
plan_source o code source_id year apply seeds db =
    let (editions, (e, created)) =
      get_or_create_annual_edition o.new_edition_id source_id year db.editions in
    plan_edition o code source_id year apply seeds e (record db { editions = editions })

unfoldable pub plan_sources :
    Outside → ℕ → Bool → List String → Database → Database × List ShardPlanItem
plan_sources o year apply [] db = (db, [])
plan_sources o year apply (code ∷ codes) db =
    let (between, items) : Database × List ShardPlanItem = elim (o.default_seeds code) [
      | none ↦ (db, missing_source code year ∷ [])
      | some seeds ↦ elim (find_source code db.sources) [
        | none ↦ (db, missing_source code year ∷ [])
        | some i ↦ plan_source o code i year apply seeds db
      ]
    ] in
    let (after, more) = plan_sources o year apply codes between in (after, items ++ more)

-- None for ValueError: a cap under 1.
unfoldable pub plan_or_create_annual_shards :
    Outside → ℕ → List String → Bool → ℕ → Database → Option (Database × List ShardPlanItem)
plan_or_create_annual_shards o year source_codes apply shard_target_url_cap db =
    let codes : List String = elim source_codes [ [] ↦ annual_sources_ordered | c ∷ cs ↦ c ∷ cs ] in
    if ltb shard_target_url_cap 1
    then none
    else some (plan_sources o year apply (requested_codes codes) db)
