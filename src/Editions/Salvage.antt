-- ===== src/Editions/Salvage.antt =====
-- src/ha_backend/annual_editions.py: get_or_create_annual_edition and salvage_existing_annual_jobs.
use healtharchive.Base.{
  ℕ, suc, ◌+◌, String, Bool, true, false, ◌&&◌, ◌||◌, not, Option, none, some, List, [], ◌∷◌, ◌++◌,
  map, ltb, ◌==◌, opt_is, str_eq, str_mem, keep, length, leb, num_mem, insert_by, sort_by, or_else,
  if◌then◌else◌,
}
use healtharchive.Base.Text.{concat, strip, lower, show}
use healtharchive.Editions.{ArchiveJob, AnnualEdition, is_text, job_campaign_year}
use healtharchive.Editions.Attach.{is_edition, attach_job_to_edition}

pub record SalvageResult : Type 0 where
  pub created_editions : ℕ
  pub attached_jobs : ℕ
  pub skipped_jobs : ℕ
  pub edition_ids : List ℕ

-- The tables that the salvage reads and writes; a source is its code and id.
pub record Database : Type 0 where
  pub sources : List (String × ℕ)
  pub editions : List AnnualEdition
  pub jobs : List ArchiveJob

abbrev pub new_edition : ℕ → ℕ → ℕ → AnnualEdition
new_edition i source_id year = record {
  id = i;
  source_id = source_id;
  year = year;
  status = "planning";
  search_ready = false;
  research_ready = false;
  intended_url_count = 0;
  captured_url_count = 0;
  failed_url_count = 0;
  missing_url_count = 0;
  excluded_url_count = 0;
  fallback_url_count = 0;
  shard_count = 0;
  indexed_shard_count = 0;
  needs_review_shard_count = 0;
  backend_counts = none;
  coverage_summary = none;
  target_ledger_path = none;
  capture_manifest_path = none;
  coverage_report_json_path = none;
  coverage_report_md_path = none;
  generated_at = none;
  updated_at = none;
}

unfoldable pub find_edition : ℕ → ℕ → List AnnualEdition → Option AnnualEdition
find_edition source_id year [] = none
find_edition source_id year (e ∷ rest) =
    let more = find_edition source_id year rest in
    if e.source_id == source_id && e.year == year then some e else more

-- `new_id` is the id that the database gives to a new row.
unfoldable pub get_or_create_annual_edition :
    (List AnnualEdition → ℕ)
    → ℕ
    → ℕ
    → List AnnualEdition
    → List AnnualEdition × (AnnualEdition × Bool)
get_or_create_annual_edition new_id source_id year editions =
    let made = new_edition (new_id editions) source_id year in
    elim (find_edition source_id year editions) [
      | some e ↦ (editions, (e, false))
      | none ↦ (editions ++ (made ∷ []), (made, true))
    ]

-- The annual jobs of a source and year, by creation time and id.
unfoldable pub is_annual_of : ℕ → ℕ → ArchiveJob → Bool
is_annual_of source_id year j =
    is_edition j.source_id source_id
    && (is_edition (job_campaign_year j) year && opt_is j.config.campaign_kind "annual")

abbrev pub created_le : ArchiveJob → ArchiveJob → Bool
created_le a b =
    ltb a.created_at b.created_at || (a.created_at == b.created_at && not (ltb b.id a.id))

unfoldable pub salvage_key : ℕ → ℕ → ArchiveJob → String
salvage_key total index j =
    if is_text j.shard_key
    then or_else j.shard_key ""
    else if total == 1
    then "legacy-full-site"
    else concat "legacy-full-site-" (show index)

abbrev pub configured_kind : ArchiveJob → String
configured_kind j = strip (or_else (or_else j.config.campaign_shard_kind none) "")

unfoldable pub salvage_kind : ArchiveJob → String
salvage_kind j =
    let configured : String = configured_kind j in
    let stored : String = strip (or_else j.shard_kind "") in
    if not (str_eq configured "")
    then configured
    else if str_mem stored ("" ∷ "full_site" ∷ [])
    then "legacy_full_site"
    else stored

unfoldable pub put_job : ArchiveJob → List ArchiveJob → List ArchiveJob
put_job j [] = []
put_job j (k ∷ rest) = (if k.id == j.id then j else k) ∷ put_job j rest

-- The loop over the matches: the table, the attached jobs and the skipped ones.
unfoldable pub salvage_matches :
    AnnualEdition → ℕ → ℕ → List ArchiveJob → List ArchiveJob × (ℕ × ℕ) → List ArchiveJob × (ℕ × ℕ)
salvage_matches e total index [] acc = acc
salvage_matches e total index (j ∷ rest) (jobs, (attached, skipped)) =
    let (k, changed) =
      attach_job_to_edition j e (some (salvage_key total index j)) (salvage_kind j) in
    salvage_matches e total (suc index) rest
      (put_job k jobs, (if changed then (suc attached, skipped) else (attached, suc skipped)))

unfoldable pub find_source : String → List (String × ℕ) → Option ℕ
find_source code [] = none
find_source code ((c, i) ∷ rest) =
    let more = find_source code rest in if str_eq c code then some i else more

abbrev pub add_result : ℕ → Bool → ℕ × ℕ → SalvageResult → SalvageResult
add_result edition_id created (attached, skipped) r = record {
  created_editions = if created then suc r.created_editions else r.created_editions;
  attached_jobs = r.attached_jobs + attached;
  skipped_jobs = r.skipped_jobs + skipped;
  edition_ids = r.edition_ids ++ (edition_id ∷ []);
}

module _ (new_id : List AnnualEdition → ℕ) (year : ℕ) where
  unfoldable pub salvage_source : ℕ → Database × SalvageResult → Database × SalvageResult
  salvage_source source_id (db, r) =
      let (editions, (e, created)) =
        get_or_create_annual_edition new_id source_id year db.editions in
      let matches = keep (is_annual_of source_id year) (sort_by created_le db.jobs) in
      let (jobs, counts) = salvage_matches e (length matches) 1 matches (db.jobs, (0, 0)) in
      (record db { editions = editions; jobs = jobs }, add_result e.id created counts r)

  -- A code that no source has is passed over.
  unfoldable pub salvage_sources : List String → Database × SalvageResult → Database × SalvageResult
  salvage_sources [] acc = acc
  salvage_sources (code ∷ rest) acc =
      salvage_sources rest
        (elim (find_source code acc.0.sources) [ none ↦ acc | some i ↦ salvage_source i acc ])

abbrev pub requested_codes : List String → List String
requested_codes codes = map (λ s. lower (strip s)) (keep (λ s. not (str_eq (strip s) "")) codes)

abbrev pub annual_sources_ordered : List String
annual_sources_ordered = "hc" ∷ "phac" ∷ "cihr" ∷ []

-- sorted(set(ids))
unfoldable pub sorted_set : List ℕ → List ℕ
sorted_set [] = []
sorted_set (i ∷ is) =
    let rest = sorted_set is in if num_mem i is then rest else insert_by leb i rest

unfoldable pub salvage_existing_annual_jobs :
    (List AnnualEdition → ℕ) → ℕ → List String → Database → Database × SalvageResult
salvage_existing_annual_jobs new_id year source_codes db =
    let none_yet : SalvageResult = record {
      created_editions = 0;
      attached_jobs = 0;
      skipped_jobs = 0;
      edition_ids = [];
    } in
    let codes : List String = elim source_codes [ [] ↦ annual_sources_ordered | c ∷ cs ↦ c ∷ cs ] in
    let (after, r) = salvage_sources new_id year (requested_codes codes) (db, none_yet) in
    (after, record r { edition_ids = sorted_set r.edition_ids })
