-- ===== src/Rescue.antt =====
-- src/ha_backend/crawl_rescue_status.py: what the stored policy, stage and statistics of a job say
-- about its fallback, and the operator's summary of them.
pub mod Summary
use healtharchive.Base.{
  String, Bool, true, false, ◌&&◌, ◌||◌, not, Option, none, some, str_eq, opt_is, or_else,
  if◌then◌else◌,
}
use healtharchive.Base.Text.{strip, concat, ends_with}
use healtharchive.Base.Int.{ℤ, is_positive}
use healtharchive.Contract.Policy
use healtharchive.Contract.Policy.{
  ExecutionPolicy, PolicyDict, no_policy, normalize, or_text, text_of,
}
use healtharchive.Contract.Job
use healtharchive.Contract.Job.{ConfigDict, no_config}

abbrev pub fresh_failure_budget_exhausted : String
fresh_failure_budget_exhausted = "fresh_failure_budget_exhausted"

abbrev pub warc_complete_finalization_failed : String
warc_complete_finalization_failed = "warc_complete_finalization_failed"

abbrev pub warc_complete_finalization_failed_status : String
warc_complete_finalization_failed_status = "warc-complete-finalization-failed"

-- _normalize_backend(value, default=default)
abbrev pub normalize_backend : Option String → String → String
normalize_backend value default = or_text (normalize (text_of value)) default

-- The policy of a stored config.
abbrev pub policy_of : Option ConfigDict → ExecutionPolicy
policy_of config = (Job.from_dict (or_else config no_config)).execution_policy

-- The source's registered profile, if its backend differs; `profiles` is `get_config_for_source`,
-- which answers with the profile's default policy.
unfoldable pub profile_backend :
    (String → Option PolicyDict) → Option String → String → Option String
profile_backend profiles none configured = none
profile_backend profiles (some code) configured =
    if str_eq code "" then none else elim (profiles (normalize code)) [
      | none ↦ none
      | some policy ↦
          let backend : String =
            normalize_backend (some (Policy.from_dict policy).capture_backend) configured in
          if str_eq backend configured then none else some backend
    ]

unfoldable pub infer_primary_backend :
    (String → Option PolicyDict) → Option String → Option ConfigDict → String
unfolding Job.from_dict Policy.from_dict normalize profile_backend
infer_primary_backend profiles source_code config =
    let policy = policy_of config in
    let configured : String = normalize_backend (some policy.capture_backend) "browsertrix" in
    let fallback : String = normalize_backend (some policy.fallback_backend) "none" in
    let explicit : String = normalize_backend policy.primary_backend "" in
    let profiled : Option String = profile_backend profiles source_code configured in
    if not (str_eq explicit "")
    then explicit
    else if not (str_eq fallback "none") && str_eq configured fallback
    then or_else profiled configured
    else configured

pub record CrawlRescueStatus : Type 0 where
  pub primary_backend : String
  pub configured_backend : String
  pub effective_backend : String
  pub fallback_backend : String
  pub resume_policy : String
  pub fresh_failure_budget : ℤ
  pub crawler_stage : Option String
  pub fallback_configured : Bool
  pub fallback_active : Bool
  pub promoted_to_fallback : Bool
  pub promotion_signal : Option String
  pub last_promoted_from_backend : Option String
  pub last_promotion_reason : Option String

-- `s or None`
abbrev pub or_none : String → Option String
or_none s = if str_eq s "" then none else some s

-- str(crawler_stage).strip() or None: Python's str(None) is the text "None".
abbrev pub stage_field : Option String → Option String
stage_field stage = or_none (strip (or_else stage "None"))

-- f"promoted_to_{backend}"
abbrev pub promoted_stage : String → String
promoted_stage backend = concat "promoted_to_" backend

-- `backend_name` is `last_stats["backend"]["name"]`, where the statistics hold one.
unfoldable pub derive_crawl_rescue_status :
    (String → Option PolicyDict)
    → Option String
    → Option ConfigDict
    → Option String
    → Option String
    → CrawlRescueStatus
unfolding infer_primary_backend
derive_crawl_rescue_status profiles source_code config crawler_stage backend_name =
    let policy = policy_of config in
    let configured : String = normalize_backend (some policy.capture_backend) "browsertrix" in
    let fallback : String = normalize_backend (some policy.fallback_backend) "none" in
    let effective : String = normalize_backend backend_name configured in
    let primary : String = infer_primary_backend profiles source_code config in
    let is_configured : Bool = not (str_eq fallback "none") in
    let is_active : Bool = is_configured && str_eq effective fallback in
    let by_stage : Bool = is_configured && opt_is crawler_stage (promoted_stage fallback) in
    let by_backend : Bool = is_active && not (str_eq primary fallback) in
    record {
      primary_backend = primary;
      configured_backend = configured;
      effective_backend = effective;
      fallback_backend = fallback;
      resume_policy = normalize_backend (some policy.resume_policy) "auto";
      fresh_failure_budget = policy.max_fresh_failures_before_fallback;
      crawler_stage = stage_field crawler_stage;
      fallback_configured = is_configured;
      fallback_active = is_active;
      promoted_to_fallback = by_stage || by_backend;
      promotion_signal =
          if by_stage
          then some "crawler_stage"
          else if by_backend
          then some "effective_backend"
          else none;
      last_promoted_from_backend = or_none (normalize_backend policy.last_promoted_from_backend "");
      last_promotion_reason = or_none (strip (text_of policy.last_promotion_reason));
    }
