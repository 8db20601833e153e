-- ===== src/Crawl/State.antt =====
-- src/archive_tool/state.py: the fields of CrawlState, and the operations on them that touch no file.
use healtharchive.Base.{ℕ, ◌+◌, String, Option, none, some, List, []}
use healtharchive.Base.Int.{ℤ, pos, negsuc}

pub data ErrorType : Type 0 where
  timeout http other : ErrorType

pub record ErrorCounts : Type 0 where
  pub timeout : ℕ
  pub http : ℕ
  pub other : ℕ

abbrev pub no_errors : ErrorCounts
no_errors = record { timeout = 0; http = 0; other = 0 }

-- A rate in pages per minute, as pages over milliseconds; 0 over 1 is 0.
pub record Rate : Type 0 where
  pub pages : ℕ
  pub millis : ℕ

abbrev pub no_rate : Rate
no_rate = record { pages = 0; millis = 1 }

pub record CrawlState : Type 0 where
  pub stage_start_time : Option ℕ
  pub last_crawled_count : ℤ
  pub last_total_count : ℤ
  pub last_pending_count : ℤ
  pub last_failed_count : ℤ
  pub last_progress_timestamp : Option ℕ
  pub last_stats_timestamp : Option ℕ
  pub last_no_stats_signal_timestamp : Option ℕ
  pub error_counts : ErrorCounts
  pub last_error_type : Option ErrorType
  pub previous_crawled_count : ℤ
  pub previous_stats_timestamp : Option ℕ
  pub progress_rate : Rate
  pub last_vpn_rotation_timestamp : Option ℕ
  pub initial_workers : ℤ
  pub current_workers : ℤ
  pub temp_dirs_host_paths : List String
  pub vpn_rotations_done : ℤ
  pub worker_reductions_done : ℤ
  pub container_restarts_done : ℤ

-- The fields as __init__ sets them before it loads.
unfoldable pub initial_state : ℤ → CrawlState
initial_state workers = record {
  stage_start_time = none;
  last_crawled_count = negsuc 0;
  last_total_count = negsuc 0;
  last_pending_count = negsuc 0;
  last_failed_count = negsuc 0;
  last_progress_timestamp = none;
  last_stats_timestamp = none;
  last_no_stats_signal_timestamp = none;
  error_counts = no_errors;
  last_error_type = none;
  previous_crawled_count = negsuc 0;
  previous_stats_timestamp = none;
  progress_rate = no_rate;
  last_vpn_rotation_timestamp = none;
  initial_workers = workers;
  current_workers = workers;
  temp_dirs_host_paths = [];
  vpn_rotations_done = pos 0;
  worker_reductions_done = pos 0;
  container_restarts_done = pos 0;
}

-- _reset_persistent_state_values
unfoldable pub reset_persistent_values : CrawlState → CrawlState
reset_persistent_values s = record s {
  current_workers = s.initial_workers;
  temp_dirs_host_paths = [];
  vpn_rotations_done = pos 0;
  worker_reductions_done = pos 0;
  container_restarts_done = pos 0;
  last_vpn_rotation_timestamp = none;
}

-- The fields that reset_adaptation_counts sets before it saves.
unfoldable pub zero_adaptation_counts : CrawlState → CrawlState
zero_adaptation_counts s = record s {
  vpn_rotations_done = pos 0;
  worker_reductions_done = pos 0;
  container_restarts_done = pos 0;
  last_vpn_rotation_timestamp = none;
}

unfoldable pub reset_runtime_errors : CrawlState → CrawlState
reset_runtime_errors s = record s { error_counts = no_errors; last_error_type = none }

abbrev count : ErrorType → ErrorCounts → ErrorCounts
count timeout c = record c { timeout = c.timeout + 1 }
count http c = record c { http = c.http + 1 }
count other c = record c { other = c.other + 1 }

unfoldable pub record_error : ErrorType → CrawlState → CrawlState
record_error e s = record s { error_counts = count e s.error_counts; last_error_type = some e }

-- src/archive_tool/main.py: the start of a round of the stage loop.
unfoldable pub begin_iteration : ℕ → CrawlState → CrawlState
begin_iteration now s = record s { stage_start_time = some now }

-- src/archive_tool/main.py: the runtime fields are reset once the stage's container was started.
unfoldable pub start_stage : CrawlState → CrawlState
start_stage s = record s {
  last_crawled_count = negsuc 0;
  last_total_count = negsuc 0;
  last_pending_count = negsuc 0;
  last_failed_count = negsuc 0;
  last_progress_timestamp = none;
  last_stats_timestamp = none;
  last_no_stats_signal_timestamp = none;
  previous_crawled_count = negsuc 0;
  previous_stats_timestamp = none;
  progress_rate = no_rate;
  error_counts = no_errors;
  last_error_type = none;
}
