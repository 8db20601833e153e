-- ===== src/Tests/CrawlSamples.antt =====
-- A sample crawl: its command line, its disk and its state.
use healtharchive.Base.{true, false, none, some, List, [], ◌∷◌}
use healtharchive.Base.Int.{pos, negsuc}
use healtharchive.Crawl.State.{CrawlState}
use healtharchive.Crawl.TempDirs.{Files}
use healtharchive.Crawl.Persist.{Persistent, missing, Disk}
use healtharchive.Crawl.Progress.{Stats}
use healtharchive.Crawl.Strategies.{Args, Network}
use healtharchive.Crawl.Intervene.{Message}
use healtharchive.Crawl.Budget.{Event, check, message, iteration, stage}

abbrev pub args : Args
args = record {
  enable_monitoring = true;
  stall_timeout_minutes = 30;
  error_threshold_timeout = 10;
  error_threshold_http = 10;
  enable_adaptive_workers = true;
  max_worker_reductions = pos 2;
  min_workers = pos 1;
  enable_adaptive_restart = true;
  max_container_restarts = pos 3;
  enable_vpn_rotation = false;
  max_vpn_rotations = pos 3;
  vpn_connect_command = "";
  vpn_rotation_frequency_minutes = 60;
  backoff_delay_minutes = 15;
}

abbrev pub files : Files
files = record { is_dir = λ p. some true; canonical = λ p. p; mtime = λ p. 0 }

abbrev pub disk : Disk
disk = record { files = files; writable = true; broken = false }

-- A crawl of four workers that has started its stage at 1000 and holds one temp directory.
abbrev pub fresh_state : CrawlState
fresh_state = record {
  stage_start_time = some 1000;
  last_crawled_count = negsuc 0;
  last_total_count = negsuc 0;
  last_pending_count = negsuc 0;
  last_failed_count = negsuc 0;
  last_progress_timestamp = none;
  last_stats_timestamp = none;
  last_no_stats_signal_timestamp = none;
  error_counts = record { timeout = 0; http = 0; other = 0 };
  last_error_type = none;
  previous_crawled_count = negsuc 0;
  previous_stats_timestamp = none;
  progress_rate = record { pages = 0; millis = 1 };
  last_vpn_rotation_timestamp = none;
  initial_workers = pos 4;
  current_workers = pos 4;
  temp_dirs_host_paths = "/srv/jobs/hc/.tmp1" ∷ [];
  vpn_rotations_done = pos 0;
  worker_reductions_done = pos 0;
  container_restarts_done = pos 0;
}

abbrev pub started : Persistent
started = record { state = fresh_state; file = missing }

abbrev pub network : Network
network = record {
  now = 5000;
  command_found = false;
  command_succeeds = false;
  stop_requested = false;
}

abbrev pub stalled_message : Message
stalled_message = record { status = "stalled"; reason = "no_stats" }

-- Two stalls that the main loop handles.
abbrev pub events : List Event
events =
    check 2000000
    ∷ message disk network false stalled_message
    ∷ iteration 2100000
    ∷ stage
    ∷ check 4000000
    ∷ message disk network false stalled_message
    ∷ []

abbrev pub first_stats : Stats
first_stats = record {
  crawled = some (pos 1);
  total = some (pos 9);
  pending = some (pos 2);
  failed = none;
}
