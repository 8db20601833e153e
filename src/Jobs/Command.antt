-- ===== src/Jobs/Command.antt =====
-- src/ha_backend/jobs.py: build_command and _build_tool_extra_args.
use healtharchive.Base.{
  suc, String, Bool, ◌&&◌, not, Option, none, some, List, [], ◌∷◌, ◌++◌, str_eq, if◌then◌else◌,
}
use healtharchive.Base.Text.{concat, strip, show}
use healtharchive.Base.Int.{ℤ, pos, negsuc}
use healtharchive.Contract.Options.{ArchiveToolOptions, JsonObject}
use healtharchive.Contract.Policy.{ExecutionPolicy, normalize, text_of}

-- str(z)
abbrev pub show_int : ℤ → String
show_int (pos n) = show n
show_int (negsuc n) = concat "-" (show (suc n))

abbrev pub flag_args : Bool → String → List String
flag_args b flag = if b then flag ∷ [] else []

abbrev pub int_args : String → Option ℤ → List String
int_args flag none = []
int_args flag (some z) = flag ∷ show_int z ∷ []

-- A flag with a text, where the text is not empty.
abbrev pub text_args : String → String → List String
text_args flag s = if str_eq s "" then [] else flag ∷ s ∷ []

-- `if config:`, an empty object counts as none; `dumps` is json.dumps with sorted keys.
abbrev pub config_args : (JsonObject → String) → Option JsonObject → List String
config_args dumps none = []
config_args dumps (some []) = []
config_args dumps (some (entry ∷ entries)) =
    "--browsertrix-config-json" ∷ dumps (entry ∷ entries) ∷ []

abbrev pub docker_args : ArchiveToolOptions → List String
docker_args o =
    text_args "--docker-image" (strip (text_of o.docker_image))
    ++ text_args "--docker-shm-size" (strip (text_of o.docker_shm_size))

unfoldable pub monitoring_args : ArchiveToolOptions → List String
monitoring_args o =
    if o.enable_monitoring
    then "--enable-monitoring"
      ∷ (int_args "--monitor-interval-seconds" o.monitor_interval_seconds
          ++ (int_args "--stall-timeout-minutes" o.stall_timeout_minutes
              ++ (int_args "--error-threshold-timeout" o.error_threshold_timeout
                  ++ int_args "--error-threshold-http" o.error_threshold_http)))
    else []

unfoldable pub workers_args : ArchiveToolOptions → List String
workers_args o =
    if o.enable_monitoring && o.enable_adaptive_workers
    then "--enable-adaptive-workers"
      ∷ (int_args "--min-workers" o.min_workers
          ++ int_args "--max-worker-reductions" o.max_worker_reductions)
    else []

unfoldable pub vpn_args : ArchiveToolOptions → List String
vpn_args o =
    let command : String = text_of o.vpn_connect_command in
    if o.enable_monitoring && (o.enable_vpn_rotation && not (str_eq command ""))
    then "--enable-vpn-rotation"
      ∷ "--vpn-connect-command"
      ∷ command
      ∷ (int_args "--max-vpn-rotations" o.max_vpn_rotations
          ++ int_args "--vpn-rotation-frequency-minutes" o.vpn_rotation_frequency_minutes)
    else []

unfoldable pub restart_args : ArchiveToolOptions → List String
restart_args o =
    if o.enable_monitoring && o.enable_adaptive_restart
    then "--enable-adaptive-restart" ∷ int_args "--max-container-restarts" o.max_container_restarts
    else []

unfoldable pub policy_args : ExecutionPolicy → List String
policy_args p =
    text_args "--capture-backend" (normalize p.capture_backend)
    ++ (text_args "--resume-policy" (normalize p.resume_policy)
        ++ (text_args "--fallback-backend" (normalize p.fallback_backend)
            ++ (int_args "--max-fresh-failures-before-fallback"
                  (some p.max_fresh_failures_before_fallback)
                ++ (flag_args p.auto_reset_poisoned_state "--auto-reset-poisoned-state"
                    ++ int_args "--max-temp-dirs-before-reset" p.max_temp_dirs_before_reset))))

unfoldable pub build_tool_extra_args :
    (JsonObject → String) → ArchiveToolOptions → ExecutionPolicy → List String
build_tool_extra_args dumps o p =
    docker_args o
    ++ (config_args dumps o.browsertrix_config
        ++ (monitoring_args o
            ++ (workers_args o
                ++ (vpn_args o
                    ++ (restart_args o
                        ++ ((if o.enable_monitoring
                              then int_args "--backoff-delay-minutes" o.backoff_delay_minutes
                              else [])
                            ++ (flag_args o.relax_perms "--relax-perms"
                                ++ (flag_args o.skip_final_build "--skip-final-build"
                                    ++ policy_args p))))))))

-- The command line of archive_tool for a job.
unfoldable pub build_command :
    String → List String → String → String → ℤ → Bool → Bool → String → List String → List String
build_command tool seeds name output_dir initial_workers cleanup overwrite log_level extra_args =
    tool
    ∷ "--seeds"
    ∷ (seeds
        ++ ("--name"
            ∷ name
            ∷ "--output-dir"
            ∷ output_dir
            ∷ "--initial-workers"
            ∷ show_int initial_workers
            ∷ "--log-level"
            ∷ log_level
            ∷ (flag_args cleanup "--cleanup" ++ (flag_args overwrite "--overwrite" ++ extra_args))))
