-- ===== src/Recovery/Ensure.antt =====
-- scripts/vps-crawl-auto-recover.py: _ensure_recovery_tool_options and the annual metadata.
use healtharchive.Base.{
  ℕ, String, Bool, true, false, ◌&&◌, ◌||◌, not, Option, none, some, List, [], ◌∷◌, ◌==◌, opt_is,
  str_eq, is_some, is_none, or_else, if◌then◌else◌,
}
use healtharchive.Base.Text.{concat, show}
use healtharchive.Base.Int.{ℤ, pos, leb_ℤ, eq_ℤ}
use healtharchive.Contract.Options.{OptionsDict}
use healtharchive.Contract.Policy.{PolicyDict, normalize, or_text}
use healtharchive.Recovery.{RecoveryJob, RecoveryProfile}
use healtharchive.Recovery.Options.{Registry, Target, target_of}

-- A value that is set where it is false or missing, and whether it was.
abbrev pub switched_on : Option Bool → Option Bool
switched_on o = if or_else o false then o else some true

abbrev pub is_off : Option Bool → Bool
is_off o = not (or_else o false)

abbrev pub at_least : ℤ → Option ℤ → Option ℤ
at_least least o = if leb_ℤ least (or_else o (pos 0)) then o else some least

abbrev pub is_under : ℤ → Option ℤ → Bool
is_under least o = not (leb_ℤ least (or_else o (pos 0)))

abbrev pub or_value {ℓ} : {A : Type ℓ} → Option A → A → Option A
or_value none a = some a
or_value (some b) a = some b

abbrev pub is_in : ℤ → List ℤ → Bool
is_in z [] = false
is_in z (x ∷ xs) = eq_ℤ z x || is_in z xs

-- A missing value or one of an earlier shared baseline becomes the one of the profile.
abbrev pub is_legacy_value : List ℤ → ℤ → Option ℤ → Bool
is_legacy_value legacy desired none = true
is_legacy_value legacy desired (some z) = is_in z legacy && not (eq_ℤ z desired)

abbrev pub reconciled : List ℤ → ℤ → Option ℤ → Option ℤ
reconciled legacy desired o = if is_legacy_value legacy desired o then some desired else o

abbrev pub min_restarts : Bool → Option RecoveryProfile → ℤ
min_restarts annual (some p) = p.max_container_restarts
min_restarts annual none = if annual then pos 20 else pos 6

-- The steps for every job.
unfoldable pub with_restarts : ℤ → OptionsDict → OptionsDict × Bool
with_restarts least o = (
  record o {
    enable_monitoring = switched_on o.enable_monitoring;
    enable_adaptive_restart = switched_on o.enable_adaptive_restart;
    max_container_restarts = at_least least o.max_container_restarts;
  },
  is_off o.enable_monitoring
      || (is_off o.enable_adaptive_restart || is_under least o.max_container_restarts),
)

-- The defaults of an annual job.
unfoldable pub with_annual_defaults : OptionsDict → OptionsDict × Bool
with_annual_defaults o = (
  record o {
    skip_final_build = or_value o.skip_final_build true;
    docker_shm_size = or_value o.docker_shm_size "1g";
    stall_timeout_minutes = or_value o.stall_timeout_minutes (pos 60);
    error_threshold_timeout = or_value o.error_threshold_timeout (pos 50);
    error_threshold_http = or_value o.error_threshold_http (pos 50);
    backoff_delay_minutes = or_value o.backoff_delay_minutes (pos 2);
  },
  is_none o.skip_final_build
      || (is_none o.docker_shm_size
          || (is_none o.stall_timeout_minutes
              || (is_none o.error_threshold_timeout
                  || (is_none o.error_threshold_http || is_none o.backoff_delay_minutes)))),
)

-- _LEGACY_ANNUAL_BASELINE_VALUES
abbrev pub legacy_workers : List ℤ
legacy_workers = pos 1 ∷ pos 2 ∷ []

abbrev pub legacy_stall : List ℤ
legacy_stall = pos 60 ∷ []

abbrev pub legacy_errors : List ℤ
legacy_errors = pos 50 ∷ []

abbrev pub legacy_backoff : List ℤ
legacy_backoff = pos 2 ∷ []

-- The values of the profile of the source.
unfoldable pub with_profile : RecoveryProfile → OptionsDict → OptionsDict × Bool
with_profile p o = (
  record o {
    initial_workers = reconciled legacy_workers p.initial_workers o.initial_workers;
    stall_timeout_minutes = reconciled legacy_stall p.stall_timeout_minutes o.stall_timeout_minutes;
    error_threshold_timeout =
        reconciled legacy_errors p.error_threshold_timeout o.error_threshold_timeout;
    error_threshold_http = reconciled legacy_errors p.error_threshold_http o.error_threshold_http;
    backoff_delay_minutes =
        reconciled legacy_backoff p.backoff_delay_minutes o.backoff_delay_minutes;
  },
  is_legacy_value legacy_workers p.initial_workers o.initial_workers
      || (is_legacy_value legacy_stall p.stall_timeout_minutes o.stall_timeout_minutes
          || (is_legacy_value legacy_errors p.error_threshold_timeout o.error_threshold_timeout
              || (is_legacy_value legacy_errors p.error_threshold_http o.error_threshold_http
                  || is_legacy_value legacy_backoff p.backoff_delay_minutes
                      o.backoff_delay_minutes))),
)

abbrev pub differs_text : Option String → Option String → Bool
differs_text a b = elim a [ none ↦ is_some b | some s ↦ not (opt_is b s) ]

abbrev pub differs_number : Option ℤ → Option ℤ → Bool
differs_number none b = is_some b
differs_number (some x) none = true
differs_number (some x) (some y) = not (eq_ℤ x y)

abbrev pub differs_flag : Option Bool → Option Bool → Bool
differs_flag none b = is_some b
differs_flag (some x) none = true
differs_flag (some true) (some y) = not y
differs_flag (some false) (some y) = y

abbrev pub is_blank : Option String → Bool
is_blank o = str_eq (normalize (or_else o "")) ""

abbrev pub desired_backend : PolicyDict → String
desired_backend d = normalize (or_text (or_else d.capture_backend "") "browsertrix")

-- The execution policy of the registry; a backend that the job has is kept, and so is a limit on
-- temporary directories where the registry has none.
unfoldable pub with_policy : PolicyDict → PolicyDict → PolicyDict × Bool
with_policy d p =
    let capped = is_some d.max_temp_dirs_before_reset in
    (
      record p {
        capture_backend =
            if is_blank p.capture_backend then some (desired_backend d) else p.capture_backend;
        resume_policy = d.resume_policy;
        fallback_backend = d.fallback_backend;
        max_fresh_failures_before_fallback = d.max_fresh_failures_before_fallback;
        auto_reset_poisoned_state = d.auto_reset_poisoned_state;
        max_temp_dirs_before_reset =
            if capped then d.max_temp_dirs_before_reset else p.max_temp_dirs_before_reset;
      },
      is_blank p.capture_backend
          || (differs_text p.resume_policy d.resume_policy
              || (differs_text p.fallback_backend d.fallback_backend
                  || (differs_number p.max_fresh_failures_before_fallback
                        d.max_fresh_failures_before_fallback
                      || (differs_flag p.auto_reset_poisoned_state d.auto_reset_poisoned_state
                          || (capped
                              && differs_number p.max_temp_dirs_before_reset
                                  d.max_temp_dirs_before_reset))))),
    )

abbrev pub annual_step : Bool → OptionsDict → OptionsDict × Bool
annual_step true o = with_annual_defaults o
annual_step false o = (o, false)

abbrev pub profile_step : Option RecoveryProfile → OptionsDict → OptionsDict × Bool
profile_step none o = (o, false)
profile_step (some p) o = with_profile p o

abbrev pub policy_step : Option PolicyDict → PolicyDict → PolicyDict × Bool
policy_step none p = (p, false)
policy_step (some d) p = with_policy d p

unfoldable pub tool_steps : Bool → Option RecoveryProfile → OptionsDict → OptionsDict × Bool
tool_steps annual profile o =
    let (a, restarts) = with_restarts (min_restarts annual profile) o in
    let (b, defaults) = annual_step annual a in
    let (c, tuned) = profile_step profile b in (c, restarts || (defaults || tuned))

-- The configuration is stored only where a step changed something.
unfoldable pub ensure_for : Target → RecoveryJob → RecoveryJob × Bool
ensure_for t j =
    let (tool, tuned) = tool_steps t.annual t.profile j.tool_options in
    let (policy, moved) = policy_step t.policy j.execution_policy in
    if tuned || moved
    then (record j { tool_options = tool; execution_policy = policy }, true)
    else (j, false)

unfoldable pub ensure_recovery_tool_options : Registry → RecoveryJob → RecoveryJob × Bool
ensure_recovery_tool_options g j = ensure_for (target_of g j) j

unfoldable pub ensure_annual_campaign_metadata : ℕ → RecoveryJob → RecoveryJob × Bool
ensure_annual_campaign_metadata year j =
    let date : String = concat (show year) "-01-01" in
    let is_kind : Bool = str_eq (normalize (or_else j.campaign_kind "")) "annual" in
    let is_year : Bool = elim j.campaign_year [ none ↦ false | some y ↦ y == year ] in
    let changed : Bool =
      not is_kind
      || (not is_year
          || (is_none j.campaign_date
              || (is_none j.campaign_date_utc || is_none j.scheduler_version))) in
    if changed
    then (
      record j {
        campaign_kind = if is_kind then j.campaign_kind else some "annual";
        campaign_year = some year;
        campaign_date = or_value j.campaign_date date;
        campaign_date_utc = or_value j.campaign_date_utc (concat date "T00:00:00Z");
        scheduler_version = or_value j.scheduler_version "v1";
      },
      true,
    )
    else (j, false)
