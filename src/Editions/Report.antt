-- ===== src/Editions/Report.antt =====
-- src/ha_backend/annual_editions.py: generate_coverage_report: what it
-- writes to the edition and its jobs. The contents of the files that it writes are left out, and the
-- clock of the database is that of the program.
use healtharchive.Base.{
  ℕ, suc, ◌+◌, String, Bool, true, false, ◌&&◌, ◌||◌, not, none, some, List, [], ◌∷◌, ◌++◌, map,
  ltb, ◌==◌, Option, some, str_eq, str_mem, num_mem, keep, length, or_else, if◌then◌else◌,
}
use healtharchive.Base.Text.{concat, show, join_texts}
use Prim.Native.Char.{code}
use healtharchive.Editions.{
  ArchiveJob, Snapshot, AnnualEdition, blocking_job_statuses, review_job_statuses, accepted_states,
  or_text, capture_fidelity_for_backend,
}
use healtharchive.Editions.Attach.{is_edition}

-- The members of a set of texts, once each.
unfoldable pub distinct : List String → List String
distinct [] = []
distinct (x ∷ xs) = let rest = distinct xs in if str_mem x xs then rest else x ∷ rest

-- The values after each --scopeExcludeRx of the arguments of a job.
unfoldable pub exclusions_of : List String → List String
exclusions_of [] = []
exclusions_of (token ∷ []) = []
exclusions_of (token ∷ value ∷ rest) =
    let more = exclusions_of (value ∷ rest) in
    if str_eq token "--scopeExcludeRx" && not (str_eq value "") then value ∷ more else more

-- Those that were not seen before.
unfoldable pub fresh_texts : List String → List String → List String
fresh_texts seen [] = []
fresh_texts seen (x ∷ xs) = elim (str_mem x seen) [
  | true ↦ fresh_texts seen xs
  | false ↦ x ∷ fresh_texts (x ∷ seen) xs
]

unfoldable pub all_exclusions : List ArchiveJob → List String
all_exclusions [] = []
all_exclusions (j ∷ jobs) = exclusions_of j.config.zimit_passthrough_args ++ all_exclusions jobs

unfoldable pub scope_exclusions_from_jobs : List ArchiveJob → List String
scope_exclusions_from_jobs jobs = fresh_texts [] (all_exclusions jobs)

-- A row of the target ledger that a seed gives, and whether its URL was captured.
pub record SeedRow : Type 0 where
  pub url : String
  pub captured : Bool
  pub job_id : ℕ

-- The loop over the seeds of a job: the rows, and what was seen.
unfoldable pub seed_rows_of :
    ℕ → List String → List String → List String → List SeedRow × List String
seed_rows_of job_id captured_urls seen [] = ([], seen)
seed_rows_of job_id captured_urls seen (url ∷ seeds) = elim (str_eq url "" || str_mem url seen) [
  | true ↦ seed_rows_of job_id captured_urls seen seeds
  | false ↦
      let (rows, after) = seed_rows_of job_id captured_urls (url ∷ seen) seeds in
      (record { url = url; captured = str_mem url captured_urls; job_id = job_id } ∷ rows, after)
]

unfoldable pub seed_rows_from : List String → List String → List ArchiveJob → List SeedRow
seed_rows_from captured_urls seen [] = []
seed_rows_from captured_urls seen (j ∷ jobs) =
    let (rows, after) = seed_rows_of j.id captured_urls seen j.config.seeds in
    rows ++ seed_rows_from captured_urls after jobs

unfoldable pub seed_rows_for_jobs : List ArchiveJob → List String → List SeedRow
seed_rows_for_jobs jobs captured_urls = seed_rows_from captured_urls [] jobs

-- A collections.Counter of texts.
unfoldable pub count_text : String → List (String × ℕ) → List (String × ℕ)
count_text key [] = (key, 1) ∷ []
count_text key ((k, n) ∷ rest) =
    let more = count_text key rest in if str_eq k key then (k, suc n) ∷ rest else (k, n) ∷ more

unfoldable pub count_texts : List String → List (String × ℕ) → List (String × ℕ)
count_texts [] counts = counts
count_texts (x ∷ xs) counts = count_texts xs (count_text x counts)

abbrev pub backend_of : Snapshot → String
backend_of s = or_else (or_text s.capture_backend none) "browsertrix"

abbrev pub fidelity_of : Snapshot → String
fidelity_of s =
    or_else (or_text s.capture_fidelity none) (capture_fidelity_for_backend (backend_of s))

abbrev pub sum_where : (String → Bool) → List (String × ℕ) → ℕ
sum_where p [] = 0
sum_where p ((k, n) ∷ rest) = let more = sum_where p rest in if p k then n + more else more

abbrev pub sum_failed : List ArchiveJob → ℕ
sum_failed [] = 0
sum_failed (j ∷ jobs) = j.pages_failed + sum_failed jobs

abbrev pub is_accepted : ArchiveJob → Bool
is_accepted j = elim j.acceptance_state [ none ↦ false | some s ↦ str_mem s accepted_states ]

unfoldable pub is_in_review : ArchiveJob → Bool
is_in_review j = str_mem j.status review_job_statuses && not (is_accepted j)

unfoldable pub is_blocking : ArchiveJob → Bool
is_blocking j = str_mem j.status blocking_job_statuses && not (is_accepted j)

abbrev pub is_empty {ℓ} : {A : Type ℓ} → List A → Bool
is_empty [] = true
is_empty (x ∷ xs) = false

-- The status of an edition, by what its jobs and its snapshots say.
unfoldable pub edition_status : Bool → Bool → Bool → Bool → Bool → String
edition_status research needs_review blocking search jobs =
    if research
    then "research_ready"
    else if needs_review
    then "needs_review"
    else if blocking
    then "in_progress"
    else if search
    then "search_ready"
    else if jobs
    then "in_progress"
    else "planning"

-- The lists that the report counts.
pub record Coverage : Type 0 where
  pub captured_urls : List String
  pub seed_rows : List SeedRow
  pub ledger_urls : List String
  pub excluded_rules : List String
  pub backend_counts : List (String × ℕ)
  pub fidelity_counts : List (String × ℕ)
  pub needs_review : List ArchiveJob
  pub blocking : List ArchiveJob
  pub indexed_shards : List ArchiveJob

abbrev pub captured_seed_urls : List SeedRow → List String
captured_seed_urls rows = map (λ r. r.url) (keep (λ r. r.captured) rows)

unfoldable pub ledger : List SeedRow → List String → List String
ledger rows captured_urls =
    map (λ r. r.url) rows ++ keep (λ u. not (str_mem u (captured_seed_urls rows))) captured_urls

unfoldable pub coverage_of : List ArchiveJob → List Snapshot → Coverage
coverage_of jobs snapshots =
    let captured_urls = distinct (map (λ s. s.url) snapshots) in
    let seed_rows = seed_rows_for_jobs jobs captured_urls in
    record {
      captured_urls = captured_urls;
      seed_rows = seed_rows;
      ledger_urls = ledger seed_rows captured_urls;
      excluded_rules = scope_exclusions_from_jobs jobs;
      backend_counts = count_texts (map backend_of snapshots) [];
      fidelity_counts = count_texts (map fidelity_of snapshots) [];
      needs_review = keep is_in_review jobs;
      blocking = keep is_blocking jobs;
      indexed_shards = keep (λ j. str_eq j.status "indexed") jobs;
    }

-- t <= u for texts, by the code points
abbrev text_le : String → String → Bool
text_le String.[] u = true
text_le (String.◌∷◌ c t) String.[] = false
text_le (String.◌∷◌ c t) (String.◌∷◌ d u) =
    ltb (code c) (code d) || (code c == code d && text_le t u)

abbrev insert_count : String × ℕ → List (String × ℕ) → List (String × ℕ)
insert_count x [] = x ∷ []
insert_count x (y ∷ rest) =
    let more = insert_count x rest in if text_le x.0 y.0 then x ∷ y ∷ rest else y ∷ more

-- dict(sorted(counts.items()))
unfoldable pub sorted_counts : List (String × ℕ) → List (String × ℕ)
sorted_counts [] = []
sorted_counts (x ∷ rest) = insert_count x (sorted_counts rest)

-- Where the artifacts of an edition are written: `root` is the archive root, `source_code` the code of
-- the edition's source if it has one.
unfoldable pub edition_artifact_dir : String → Option String → AnnualEdition → String
edition_artifact_dir root source_code e =
    let fallback_code = concat "source-" (show e.source_id) in
    join_texts "/" (root ∷ "editions" ∷ or_else source_code fallback_code ∷ show e.year ∷ [])

abbrev pub artifact_path : String → Option String → AnnualEdition → String → String
artifact_path root source_code e file =
    concat (edition_artifact_dir root source_code e) (concat "/" file)

-- What is written to the edition, and the time of the update. The files that the source writes between
-- the counts and these columns are left out.
unfoldable pub reported :
    String → Option String → ℕ → AnnualEdition → List ArchiveJob → Coverage → AnnualEdition
reported root source_code now e jobs c =
    let search_ready = not (is_empty c.indexed_shards) && ltb 0 (length c.captured_urls) in
    let research_ready = search_ready && (is_empty c.blocking && is_empty c.needs_review) in
    record e {
      status =
          edition_status research_ready (not (is_empty c.needs_review)) (not (is_empty c.blocking))
            search_ready (not (is_empty jobs));
      search_ready = search_ready;
      research_ready = research_ready;
      intended_url_count = length (distinct c.ledger_urls);
      captured_url_count = length c.captured_urls;
      failed_url_count = sum_failed jobs;
      missing_url_count =
          length (distinct (map (λ r. r.url) (keep (λ r. not r.captured) c.seed_rows)));
      excluded_url_count = length c.excluded_rules;
      fallback_url_count = sum_where (λ k. not (str_eq k "high")) c.fidelity_counts;
      shard_count = length jobs;
      indexed_shard_count = length c.indexed_shards;
      needs_review_shard_count = length c.needs_review;
      backend_counts = some (sorted_counts c.backend_counts);
      coverage_summary = some (record {
        fidelity_counts = sorted_counts c.fidelity_counts;
        exclusion_rules = c.excluded_rules;
        standard = "documented_attainable";
      });
      target_ledger_path = some (artifact_path root source_code e "target-ledger.jsonl");
      capture_manifest_path = some (artifact_path root source_code e "capture-manifest.jsonl");
      coverage_report_json_path = some (artifact_path root source_code e "coverage-report.json");
      coverage_report_md_path = some (artifact_path root source_code e "coverage-report.md");
      generated_at = some now;
      updated_at = some now;
    }

-- The writes to a job; `path` is that of the JSON report.
unfoldable pub mark_for_review : String → ArchiveJob → ArchiveJob
mark_for_review path j =
    let written = record j { coverage_report_path = some path } in
    if is_in_review j then record written { acceptance_state = some "needs_review" } else written

unfoldable pub jobs_of_edition : ℕ → List ArchiveJob → List ArchiveJob
jobs_of_edition i jobs = keep (λ j. is_edition j.edition_id i) jobs

abbrev pub mark_shards : String → ℕ → List ArchiveJob → List ArchiveJob
mark_shards path i [] = []
mark_shards path i (j ∷ jobs) =
    (if is_edition j.edition_id i then mark_for_review path j else j) ∷ mark_shards path i jobs

-- The edition and the table of jobs afterwards. The jobs are given in the order of the query.
unfoldable pub generate_coverage_report :
    String
    → Option String
    → ℕ
    → AnnualEdition
    → List ArchiveJob
    → List Snapshot
    → AnnualEdition × List ArchiveJob
generate_coverage_report root source_code now e jobs snapshots =
    let shards = jobs_of_edition e.id jobs in
    let ids = map (λ j. j.id) shards in
    let captures = keep (λ s. num_mem s.job_id ids) snapshots in
    (
      reported root source_code now e shards (coverage_of shards captures),
      mark_shards (artifact_path root source_code e "coverage-report.json") e.id jobs,
    )
