-- ===== src/Tests/Samples.antt =====
-- Sample rows and observations.
use healtharchive.Base.{String, true, false, Option, none, some, [], ◌∷◌}
use healtharchive.Base.Int.{ℤ, pos}
use healtharchive.Contract.Policy.{PolicyDict, no_policy}
use healtharchive.Contract.Job.{ConfigDict, no_config}
use healtharchive.Jobs.{ArchiveJob, Jobs, CrawlStats}
use healtharchive.Jobs.Log.{LogFile}
use healtharchive.Jobs.Run.{World, Run, returned, directory}
use healtharchive.Worker.Recovery.{free}
use healtharchive.Worker.Guards.{exited}
use healtharchive.Worker.Process.{Iteration}

-- A budget of two fresh failures, with the HTTP capture to fall back to.
abbrev pub budget_policy : PolicyDict
budget_policy = record no_policy {
  resume_policy = some "fresh_only";
  fallback_backend = some "http_warc";
  max_fresh_failures_before_fallback = some (pos 2);
}

abbrev pub annual_config : ConfigDict
annual_config = record no_config {
  seeds = some ("https://www.canada.ca/" ∷ []);
  execution_policy = some budget_policy;
  campaign_kind = some "annual";
  campaign_year = some 2026;
}

abbrev pub annual_job : ArchiveJob
annual_job = record {
  id = 7;
  source_code = some "hc";
  name = "hc-20260101";
  output_dir = "srv" ∷ "jobs" ∷ "hc" ∷ [];
  status = "queued";
  queued_at = some 5000;
  created_at = 4900;
  updated_at = 5000;
  started_at = none;
  finished_at = none;
  retry_count = 0;
  config = some annual_config;
  crawler_exit_code = none;
  crawler_status = none;
  crawler_stage = none;
  last_stats = none;
  pages_crawled = 0;
  pages_total = 0;
  pages_failed = 0;
  warc_file_count = 0;
  combined_log_path = none;
  acceptance_state = some "pending";
}

abbrev pub hung_job : ArchiveJob
hung_job = record annual_job { id = 8; status = "running"; started_at = some 1000 }

abbrev pub worn_job : ArchiveJob
worn_job = record annual_job { id = 9; retry_count = 5 }

abbrev pub two_jobs : Jobs
two_jobs = hung_job ∷ annual_job ∷ []

abbrev pub no_profiles : String → Option PolicyDict
no_profiles code = none

abbrev pub crawl_stats : CrawlStats
crawl_stats = record { crawled = 3; total = 3; pending = 0; failed = 0 }

abbrev pub log_file : LogFile
log_file = record { path = "archive_1.combined.log"; tail = "all done"; stats = some crawl_stats }

abbrev pub run_with : ℤ → Run
run_with rc = record {
  lock_held = false;
  started = 9000;
  outcome = returned (some rc);
  finished = 9500;
  latest_log = some log_file;
  dir = directory true;
  warcs = 2;
  stats_log = some log_file;
}

abbrev pub world_with : ℤ → World
world_with rc = record { profiles = no_profiles; resolve = λ p. p; run = run_with rc }

abbrev pub iteration : Iteration
iteration = record {
  now = 9000;
  probe = λ j. free;
  progress_age = λ j. none;
  index_job = λ i js. (pos 0, js);
  disk = some (1000, 500);
  tier = record { exists = true; is_mountpoint = false; run = exited (pos 0); device = none };
  world = world_with (pos 0);
  resumed = 9600;
}
