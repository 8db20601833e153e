-- ===== src/Tests/Editions.antt =====
-- An edition with a legacy job, one of whose seeds is missing.
use healtharchive.Base.{◌+◌, ◌≡◌, ◌≢◌, ◌⊎◌, refl, true, false, none, some, List, [], ◌∷◌, any, All}
use healtharchive.Editions.{ShardConfig, ArchiveJob, AnnualEdition, Snapshot, number}
use healtharchive.Editions.Attach.{attach_job_to_edition}
use healtharchive.Editions.AttachLaws.{attach_job_to_edition-again}
use healtharchive.Editions.Salvage.{Database, new_edition}
use healtharchive.Editions.Report.{
  generate_coverage_report, is_in_review, is_blocking, jobs_of_edition, reported, coverage_of,
  distinct, sorted_counts, artifact_path, edition_artifact_dir,
}
use healtharchive.Base.Text.{show, join_texts}
use healtharchive.Editions.Status.{
  IsAccepted, IsOver, HasIndexedShard, HasCapture, generate_coverage_report-ready,
}
use healtharchive.Editions.Counts.{generate_coverage_report-urls}
use healtharchive.Editions.Again.{generate_coverage_report-again}
use healtharchive.Editions.Shards.{Outside}
use healtharchive.Editions.Plan.{plan_source}
use healtharchive.Editions.Planned.{is_create}
use healtharchive.Editions.Repeat.{plan_source-again}

abbrev edition_2026 : AnnualEdition
edition_2026 = new_edition 4 2 2026

abbrev legacy_config : ShardConfig
legacy_config = record {
  campaign_kind = some "annual";
  campaign_year = some (number 2026);
  edition_id = none;
  campaign_shard_key = none;
  campaign_shard_kind = none;
  capture_backend = "browsertrix";
  zimit_passthrough_args = "--scopeExcludeRx" ∷ ".*[?]page=" ∷ [];
  seeds = "https://www.canada.ca/en/flu" ∷ "https://www.canada.ca/fr/grippe" ∷ [];
}

abbrev legacy_job : ArchiveJob
legacy_job = record {
  id = 11;
  source_id = some 2;
  edition_id = some 4;
  name = "hc-20260101";
  status = "indexed";
  config = legacy_config;
  shard_key = some "legacy-full-site";
  shard_kind = some "legacy_full_site";
  acceptance_state = some "pending";
  pages_failed = 0;
  created_at = 100;
  coverage_report_path = none;
}

abbrev one_capture : List Snapshot
one_capture =
    record {
      id = 1;
      url = "https://www.canada.ca/en/flu";
      job_id = 11;
      capture_backend = none;
      capture_fidelity = none;
    }
    ∷ []

attach_job_to_edition-again_example :
    attach_job_to_edition
      (attach_job_to_edition legacy_job edition_2026 (some "legacy-full-site") "legacy_full_site").0
      edition_2026
      (some "legacy-full-site")
      "legacy_full_site"
    ≡ (
      (attach_job_to_edition legacy_job edition_2026
          (some "legacy-full-site")
          "legacy_full_site").0,
      false,
    )
attach_job_to_edition-again_example =
    attach_job_to_edition-again edition_2026 (some "legacy-full-site") "legacy_full_site" legacy_job

sorted_sample :
    sorted_counts (("http_warc", 2) ∷ ("browsertrix", 5) ∷ [])
    ≡ ("browsertrix", 5) ∷ (("http_warc", 2) ∷ [])
unfolding sorted_counts
sorted_sample = refl

artifact_sample :
    artifact_path "/srv/ha" (some "hc") edition_2026 "coverage-report.json"
    ≡ "/srv/ha/editions/hc/2026/coverage-report.json"
unfolding edition_artifact_dir join_texts show
artifact_sample = refl

-- A seed is missing, but no shard waits for a review.
ready_sample :
    (generate_coverage_report "/srv/ha"
      (some "hc")
      9000
      edition_2026
      (legacy_job ∷ [])
      one_capture).0.research_ready
    ≡ true
unfolding generate_coverage_report reported coverage_of jobs_of_edition is_in_review is_blocking
    distinct
ready_sample = refl

generate_coverage_report-ready_example :
    ((generate_coverage_report "/srv/ha"
        (some "hc")
        9000
        edition_2026
        (legacy_job ∷ [])
        one_capture).0.status
      ≡ "research_ready")
    × ((generate_coverage_report "/srv/ha"
          (some "hc")
          9000
          edition_2026
          (legacy_job ∷ [])
          one_capture).0.search_ready
        ≡ true)
    × HasIndexedShard 4 (legacy_job ∷ [])
    × HasCapture 4 (legacy_job ∷ []) one_capture
    × All (λ j. (j.edition_id ≢ some 4) ⊎ (IsAccepted j ⊎ IsOver j)) (legacy_job ∷ [])
generate_coverage_report-ready_example =
    generate_coverage_report-ready "/srv/ha" (some "hc") 9000 edition_2026 (legacy_job ∷ [])
      one_capture ready_sample

generate_coverage_report-urls_example :
    (generate_coverage_report "/srv/ha"
      (some "hc")
      9000
      edition_2026
      (legacy_job ∷ [])
      one_capture).0.intended_url_count
    ≡ (generate_coverage_report "/srv/ha"
        (some "hc")
        9000
        edition_2026
        (legacy_job ∷ [])
        one_capture).0.captured_url_count
      + (generate_coverage_report "/srv/ha"
          (some "hc")
          9000
          edition_2026
          (legacy_job ∷ [])
          one_capture).0.missing_url_count
generate_coverage_report-urls_example =
    generate_coverage_report-urls "/srv/ha" (some "hc") 9000 edition_2026 (legacy_job ∷ [])
      one_capture

generate_coverage_report-again_example :
    let (first, marked_jobs) =
      generate_coverage_report "/srv/ha"
        (some "hc")
        9000
        edition_2026
        (legacy_job ∷ [])
        one_capture in
    generate_coverage_report "/srv/ha" (some "hc") 9500 first marked_jobs one_capture
    ≡ (record first { generated_at = some 9500; updated_at = some 9500 }, marked_jobs)
generate_coverage_report-again_example =
    generate_coverage_report-again "/srv/ha" (some "hc") 9500 9000 edition_2026 (legacy_job ∷ [])
      one_capture

abbrev sample_outside : Outside
sample_outside = record {
  default_seeds =
      λ code. some ("https://www.canada.ca/en/flu" ∷ "https://www.canada.ca/fr/grippe" ∷ []);
  job_config = λ code. legacy_config;
  new_job_id = λ jobs. 12;
  new_edition_id = λ editions. 4;
  missing_seed_urls = λ e. some ("https://www.canada.ca/fr/grippe" ∷ []);
  now = 9600;
}

abbrev sample_database : Database
sample_database = record {
  sources = ("hc", 2) ∷ [];
  editions = record edition_2026 { generated_at = some 9500; missing_url_count = 1 } ∷ [];
  jobs = legacy_job ∷ [];
}

plan_source-again_example :
    any is_create
      (plan_source sample_outside "hc" 2 2026 true
        ("https://www.canada.ca/en/flu" ∷ "https://www.canada.ca/fr/grippe" ∷ [])
        (plan_source sample_outside "hc" 2 2026 true
          ("https://www.canada.ca/en/flu" ∷ "https://www.canada.ca/fr/grippe" ∷ [])
          sample_database).0).1
    ≡ false
plan_source-again_example =
    plan_source-again sample_outside "hc" 2 2026 true
      ("https://www.canada.ca/en/flu" ∷ "https://www.canada.ca/fr/grippe" ∷ []) sample_database
