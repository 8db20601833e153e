-- ===== src/Contract/Options.antt =====
-- src/ha_backend/archive_contract.py: ArchiveToolOptions, its JSON form and its validation.
use healtharchive.Base.{
  String, Bool, false, ◌&&◌, not, Option, none, some, List, [], ◌∷◌, str_eq, or_else, if◌then◌else◌,
}
use healtharchive.Base.Text.{strip}
use healtharchive.Base.Int.{ℤ, pos}
use healtharchive.Contract.Policy.{text_of}

-- A JSON object that is passed on unread: its keys with the text of their values.
abbrev pub JsonObject : Type 0
JsonObject = List (String × String)

pub record ArchiveToolOptions : Type 0 where
  pub cleanup : Bool
  pub overwrite : Bool
  pub skip_final_build : Bool
  pub enable_monitoring : Bool
  pub enable_adaptive_workers : Bool
  pub enable_adaptive_restart : Bool
  pub enable_vpn_rotation : Bool
  pub initial_workers : ℤ
  pub log_level : String
  pub relax_perms : Bool
  pub docker_image : Option String
  pub docker_shm_size : Option String
  pub browsertrix_config : Option JsonObject
  pub monitor_interval_seconds : Option ℤ
  pub stall_timeout_minutes : Option ℤ
  pub error_threshold_timeout : Option ℤ
  pub error_threshold_http : Option ℤ
  pub min_workers : Option ℤ
  pub max_worker_reductions : Option ℤ
  pub max_container_restarts : Option ℤ
  pub vpn_connect_command : Option String
  pub max_vpn_rotations : Option ℤ
  pub vpn_rotation_frequency_minutes : Option ℤ
  pub backoff_delay_minutes : Option ℤ

-- The stored object: a key that is absent is `none`.
pub record OptionsDict : Type 0 where
  pub cleanup : Option Bool
  pub overwrite : Option Bool
  pub skip_final_build : Option Bool
  pub enable_monitoring : Option Bool
  pub enable_adaptive_workers : Option Bool
  pub enable_adaptive_restart : Option Bool
  pub enable_vpn_rotation : Option Bool
  pub initial_workers : Option ℤ
  pub log_level : Option String
  pub relax_perms : Option Bool
  pub docker_image : Option String
  pub docker_shm_size : Option String
  pub browsertrix_config : Option JsonObject
  pub monitor_interval_seconds : Option ℤ
  pub stall_timeout_minutes : Option ℤ
  pub error_threshold_timeout : Option ℤ
  pub error_threshold_http : Option ℤ
  pub min_workers : Option ℤ
  pub max_worker_reductions : Option ℤ
  pub max_container_restarts : Option ℤ
  pub vpn_connect_command : Option String
  pub max_vpn_rotations : Option ℤ
  pub vpn_rotation_frequency_minutes : Option ℤ
  pub backoff_delay_minutes : Option ℤ

-- `if o is not None: t = str(o).strip(); if t: data[key] = t`
abbrev pub set_if_not_blank : Option String → Option String
set_if_not_blank none = none
set_if_not_blank (some s) = if str_eq (strip s) "" then none else some (strip s)

-- `if o: data[key] = dict(o)`
abbrev pub set_if_nonempty : Option JsonObject → Option JsonObject
set_if_nonempty none = none
set_if_nonempty (some []) = none
set_if_nonempty (some (entry ∷ rest)) = some (entry ∷ rest)

unfoldable pub to_dict : ArchiveToolOptions → OptionsDict
to_dict o = record {
  cleanup = some o.cleanup;
  overwrite = some o.overwrite;
  skip_final_build = some o.skip_final_build;
  enable_monitoring = some o.enable_monitoring;
  enable_adaptive_workers = some o.enable_adaptive_workers;
  enable_adaptive_restart = some o.enable_adaptive_restart;
  enable_vpn_rotation = some o.enable_vpn_rotation;
  initial_workers = some o.initial_workers;
  log_level = some o.log_level;
  relax_perms = some o.relax_perms;
  docker_image = set_if_not_blank o.docker_image;
  docker_shm_size = set_if_not_blank o.docker_shm_size;
  browsertrix_config = set_if_nonempty o.browsertrix_config;
  monitor_interval_seconds = o.monitor_interval_seconds;
  stall_timeout_minutes = o.stall_timeout_minutes;
  error_threshold_timeout = o.error_threshold_timeout;
  error_threshold_http = o.error_threshold_http;
  min_workers = o.min_workers;
  max_worker_reductions = o.max_worker_reductions;
  max_container_restarts = o.max_container_restarts;
  vpn_connect_command = o.vpn_connect_command;
  max_vpn_rotations = o.max_vpn_rotations;
  vpn_rotation_frequency_minutes = o.vpn_rotation_frequency_minutes;
  backoff_delay_minutes = o.backoff_delay_minutes;
}

unfoldable pub from_dict : OptionsDict → ArchiveToolOptions
from_dict d = record {
  cleanup = or_else d.cleanup false;
  overwrite = or_else d.overwrite false;
  skip_final_build = or_else d.skip_final_build false;
  enable_monitoring = or_else d.enable_monitoring false;
  enable_adaptive_workers = or_else d.enable_adaptive_workers false;
  enable_adaptive_restart = or_else d.enable_adaptive_restart false;
  enable_vpn_rotation = or_else d.enable_vpn_rotation false;
  initial_workers = or_else d.initial_workers (pos 1);
  log_level = or_else d.log_level "INFO";
  relax_perms = or_else d.relax_perms false;
  docker_image = d.docker_image;
  docker_shm_size = d.docker_shm_size;
  browsertrix_config = d.browsertrix_config;
  monitor_interval_seconds = d.monitor_interval_seconds;
  stall_timeout_minutes = d.stall_timeout_minutes;
  error_threshold_timeout = d.error_threshold_timeout;
  error_threshold_http = d.error_threshold_http;
  min_workers = d.min_workers;
  max_worker_reductions = d.max_worker_reductions;
  max_container_restarts = d.max_container_restarts;
  vpn_connect_command = d.vpn_connect_command;
  max_vpn_rotations = d.max_vpn_rotations;
  vpn_rotation_frequency_minutes = d.vpn_rotation_frequency_minutes;
  backoff_delay_minutes = d.backoff_delay_minutes;
}

-- `{}`
abbrev pub no_options : OptionsDict
no_options = record {
  cleanup = none;
  overwrite = none;
  skip_final_build = none;
  enable_monitoring = none;
  enable_adaptive_workers = none;
  enable_adaptive_restart = none;
  enable_vpn_rotation = none;
  initial_workers = none;
  log_level = none;
  relax_perms = none;
  docker_image = none;
  docker_shm_size = none;
  browsertrix_config = none;
  monitor_interval_seconds = none;
  stall_timeout_minutes = none;
  error_threshold_timeout = none;
  error_threshold_http = none;
  min_workers = none;
  max_worker_reductions = none;
  max_container_restarts = none;
  vpn_connect_command = none;
  max_vpn_rotations = none;
  vpn_rotation_frequency_minutes = none;
  backoff_delay_minutes = none;
}

pub data OptionsError : Type 0 where
  workers_need_monitoring restart_needs_monitoring vpn_needs_monitoring : OptionsError
  vpn_needs_command blank_docker_image blank_docker_shm_size : OptionsError

-- `o is not None and not str(o).strip()`
abbrev pub is_blank : Option String → Bool
is_blank none = false
is_blank (some s) = str_eq (strip s) ""

-- `some e` is the ValueError that is raised. The last check of the source, that
-- `browsertrix_config` is a JSON object, holds by the type of the field.
unfoldable pub validate_tool_options : ArchiveToolOptions → Option OptionsError
validate_tool_options o =
    if o.enable_adaptive_workers && not o.enable_monitoring
    then some OptionsError.workers_need_monitoring
    else if o.enable_adaptive_restart && not o.enable_monitoring
    then some OptionsError.restart_needs_monitoring
    else if o.enable_vpn_rotation && not o.enable_monitoring
    then some OptionsError.vpn_needs_monitoring
    else if o.enable_vpn_rotation && str_eq (strip (text_of o.vpn_connect_command)) ""
    then some OptionsError.vpn_needs_command
    else if is_blank o.docker_image
    then some OptionsError.blank_docker_image
    else if is_blank o.docker_shm_size
    then some OptionsError.blank_docker_shm_size
    else none
