-- ===== src/Tests/Recovery.antt =====
-- A stalled annual job of one source, and the state file of its recoveries.
use healtharchive.Base.{
  ℕ, ◌+◌, ◌-◌, ◌*◌, arith, ◌≤◌, ◌≡◌, refl, true, false, none, some, List, [], ◌∷◌,
}
use healtharchive.Base.Int.{pos}
use healtharchive.Contract.Options.{OptionsDict}
use healtharchive.Contract.Policy.{no_policy, normalize}
use healtharchive.Recovery.{RecoveryJob, RecoveryProfile}
use healtharchive.Recovery.State.{
  State, ProgressEntry, no_state, day, append_item, attempt_recovery, count_since, items_of,
  record_recovery, count_recent_recoveries,
}
use healtharchive.Recovery.Records.{IsBetween, recoveries_made, recoveries_made-limit}
use healtharchive.Recovery.Circuit.{
  is_progress_circuit_open, last_entries, all_stuck, is_stuck, is_progress_circuit_open-bound,
}
use healtharchive.Recovery.Options.{
  Registry, target_of, infer_source_code, is_annual, infer_annual_campaign_year, lookup,
}
use healtharchive.Recovery.Ensure.{ensure_recovery_tool_options}
use healtharchive.Recovery.EnsureLaws.{NamesBackend, ensure_recovery_tool_options-again}

abbrev two_entries : List ProgressEntry
two_entries =
    record { timestamp = 100; crawled_count = 40 }
    ∷ record { timestamp = 200; crawled_count = 41 }
    ∷ []

abbrev stuck_state : State
stuck_state = record no_state { recovery_progress = (7, two_entries) ∷ [] }

stuck_open : is_progress_circuit_open stuck_state 7 42 10 2 ≡ true
unfolding is_progress_circuit_open items_of last_entries all_stuck is_stuck
stuck_open = refl

stuck_window :
    last_entries 2 (items_of 7 stuck_state.recovery_progress)
    ≡ record { timestamp = 100; crawled_count = 40 }
      ∷ (record { timestamp = 200; crawled_count = 41 } ∷ [])
unfolding items_of last_entries
stuck_window = refl

is_progress_circuit_open-bound_example : 42 + 2 ≤ 40 + 2 * 10
is_progress_circuit_open-bound_example =
    is_progress_circuit_open-bound stuck_state 7 42 10 2
      (record { timestamp = 100; crawled_count = 40 })
      (record { timestamp = 200; crawled_count = 41 } ∷ []) stuck_open stuck_window

-- Three attempts at job 7 and one at job 8, from 100000 seconds on.
abbrev four_attempts : List (ℕ × ℕ)
four_attempts = (7, 100000000000) ∷ (7, 100500900000) ∷ (8, 100600000000) ∷ (7, 101000000000) ∷ []

four_attempts-IsBetween : IsBetween 100000000000 102000000000 four_attempts
four_attempts-IsBetween = (omega arith, (omega arith, (omega arith, (omega arith, omega arith))))

-- The third attempt at job 7 meets the limit of two.
two_made : recoveries_made 2 7 15600000000 four_attempts stuck_state ≡ 2
unfolding recoveries_made attempt_recovery record_recovery count_recent_recoveries count_since
    items_of append_item
two_made = refl

none_recorded : count_recent_recoveries 7 13600000000 stuck_state ≤ 2
unfolding count_recent_recoveries items_of count_since
none_recorded = omega arith

recoveries_made-limit_example :
    count_recent_recoveries 7 (102000000000 - day) stuck_state
      + recoveries_made 2 7 (102000000000 - day) four_attempts stuck_state
    ≤ 2
recoveries_made-limit_example =
    recoveries_made-limit 2 7 100000000000 102000000000 four_attempts stuck_state
      four_attempts-IsBetween none_recorded

abbrev sample_profile : RecoveryProfile
sample_profile = record {
  initial_workers = pos 3;
  stall_timeout_minutes = pos 90;
  error_threshold_timeout = pos 80;
  error_threshold_http = pos 70;
  backoff_delay_minutes = pos 1;
  max_container_restarts = pos 30;
}

abbrev sample_registry : Registry
sample_registry = record {
  profiles = ("hc", sample_profile) ∷ [];
  policies =
      (
        "hc",
        record no_policy {
          capture_backend = some "browsertrix";
          fallback_backend = some "http_warc";
        },
      )
      ∷ [];
  suffix_year = λ t. some 2026;
  file_name = λ t. t;
}

abbrev no_options : OptionsDict
no_options = record {
  cleanup = none;
  overwrite = none;
  skip_final_build = none;
  enable_monitoring = none;
  enable_adaptive_workers = none;
  enable_adaptive_restart = none;
  enable_vpn_rotation = none;
  initial_workers = some (pos 2);
  log_level = none;
  relax_perms = none;
  docker_image = none;
  docker_shm_size = none;
  browsertrix_config = none;
  monitor_interval_seconds = none;
  stall_timeout_minutes = none;
  error_threshold_timeout = none;
  error_threshold_http = none;
  min_workers = none;
  max_worker_reductions = none;
  max_container_restarts = none;
  vpn_connect_command = none;
  max_vpn_rotations = none;
  vpn_rotation_frequency_minutes = none;
  backoff_delay_minutes = none;
}

abbrev stalled_job : RecoveryJob
stalled_job = record {
  source_code = some "hc";
  name = "hc-20260101";
  output_dir = "/srv/jobs/hc-20260101";
  campaign_kind = some "annual";
  campaign_year = some 2026;
  campaign_date = none;
  campaign_date_utc = none;
  scheduler_version = none;
  tool_options = no_options;
  execution_policy = no_policy;
}

sample_backend : NamesBackend (target_of sample_registry stalled_job).policy
unfolding target_of infer_source_code is_annual infer_annual_campaign_year lookup normalize
sample_backend = refl

ensure_recovery_tool_options-again_example :
    ensure_recovery_tool_options sample_registry
      (ensure_recovery_tool_options sample_registry stalled_job).0
    ≡ ((ensure_recovery_tool_options sample_registry stalled_job).0, false)
ensure_recovery_tool_options-again_example =
    ensure_recovery_tool_options-again sample_registry stalled_job sample_backend
