-- ===== src/Tests/Command.antt =====
-- The options of a crawl with every feature.
use healtharchive.Base.{◌≡◌, refl, String, true, false, ◌||◌, not, none, some, List, str_mem}
use healtharchive.Base.Text.{strip}
use healtharchive.Base.Int.{pos}
use healtharchive.Contract.Options.{ArchiveToolOptions, validate_tool_options}
use healtharchive.Contract.Policy.{ExecutionPolicy}
use healtharchive.Jobs.Command.{build_tool_extra_args}
use healtharchive.Jobs.Features.{build_tool_extra_args-features}

abbrev all_features : ArchiveToolOptions
all_features = record {
  cleanup = true;
  overwrite = false;
  skip_final_build = true;
  enable_monitoring = true;
  enable_adaptive_workers = true;
  enable_adaptive_restart = true;
  enable_vpn_rotation = true;
  initial_workers = pos 2;
  log_level = "INFO";
  relax_perms = true;
  docker_image = none;
  docker_shm_size = some "1g";
  browsertrix_config = none;
  monitor_interval_seconds = some (pos 30);
  stall_timeout_minutes = some (pos 60);
  error_threshold_timeout = none;
  error_threshold_http = none;
  min_workers = some (pos 1);
  max_worker_reductions = none;
  max_container_restarts = some (pos 20);
  vpn_connect_command = some "vpn up";
  max_vpn_rotations = none;
  vpn_rotation_frequency_minutes = none;
  backoff_delay_minutes = some (pos 2);
}

abbrev plain_policy : ExecutionPolicy
plain_policy = record {
  capture_backend = "browsertrix";
  resume_policy = "resume";
  fallback_backend = "none";
  max_fresh_failures_before_fallback = pos 2;
  auto_reset_poisoned_state = true;
  max_temp_dirs_before_reset = none;
  primary_backend = none;
  last_promoted_from_backend = none;
  last_promotion_reason = none;
}

all_features_valid : validate_tool_options all_features ≡ none
unfolding validate_tool_options strip
all_features_valid = refl

abbrev all_arguments : List String
all_arguments = build_tool_extra_args (λ config. "{}") all_features plain_policy

build_tool_extra_args-features_example :
    ((not true || str_mem "--enable-monitoring" all_arguments) ≡ true)
    × ((not true || str_mem "--enable-adaptive-workers" all_arguments) ≡ true)
    × ((not true || str_mem "--enable-vpn-rotation" all_arguments) ≡ true)
    × ((not true || str_mem "--enable-adaptive-restart" all_arguments) ≡ true)
build_tool_extra_args-features_example =
    build_tool_extra_args-features (λ config. "{}") all_features plain_policy all_features_valid
