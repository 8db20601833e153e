-- ===== src/Worker/Failure.antt =====
-- src/ha_backend/worker/main.py: _apply_failure_policy.
use healtharchive.Base.{
  ℕ, String, ◌+◌, Bool, false, ◌&&◌, ◌||◌, opt_is, not, Option, none, some, List, [], ◌∷◌, ltb,
  str_eq, str_mem, or_else, if◌then◌else◌,
}
use healtharchive.Base.Int.{is_positive, reaches}
use healtharchive.Base.Text.{strip, concat}
use healtharchive.Contract.Policy.{PolicyDict, ExecutionPolicy, normalize, or_text, text_of}
use healtharchive.Contract.Job
use healtharchive.Contract.Job.{ConfigDict, ArchiveJobConfig, no_config}
use healtharchive.Rescue.{infer_primary_backend, fresh_failure_budget_exhausted, promoted_stage}
use healtharchive.Jobs.{ArchiveJob}

abbrev pub max_crawl_retries : ℕ
max_crawl_retries = 2

abbrev pub accepted_states : List String
accepted_states = "accepted" ∷ "accepted_gap" ∷ "excluded" ∷ []

abbrev pub is_accepted : Option String → Bool
is_accepted none = false
is_accepted (some s) = str_mem s accepted_states

-- A job that is not accepted already is put up for review. A row that changes is stamped with the
-- time of its commit, here and below; one that is up for review already does not change.
unfoldable pub flag_for_review : ℕ → ArchiveJob → ArchiveJob
flag_for_review now j =
    if is_accepted j.acceptance_state || opt_is j.acceptance_state "needs_review"
    then j
    else record j { acceptance_state = some "needs_review"; updated_at = now }

-- str(value or default).strip().lower()
abbrev pub policy_text : String → String → String
policy_text value default = normalize (or_text value default)

-- The policy with the primary backend pinned, if it names none.
unfoldable pub pinned_policy :
    (String → Option PolicyDict) → ArchiveJob → ExecutionPolicy → ExecutionPolicy
pinned_policy profiles j policy =
    if str_eq (strip (text_of policy.primary_backend)) ""
    then record policy {
      primary_backend = some (infer_primary_backend profiles j.source_code j.config);
    }
    else policy

-- browsertrix under fresh_only, with a fallback and a budget
unfoldable pub has_fresh_budget : ExecutionPolicy → Bool
has_fresh_budget policy =
    str_eq (policy_text policy.capture_backend "browsertrix") "browsertrix"
    && str_eq (policy_text policy.resume_policy "auto") "fresh_only"
    && not (str_eq (policy_text policy.fallback_backend "none") "none")
    && is_positive policy.max_fresh_failures_before_fallback

unfoldable pub is_fallback_backend : ExecutionPolicy → Bool
is_fallback_backend policy =
    str_mem (policy_text policy.capture_backend "browsertrix")
      ("http_warc" ∷ "playwright_warc" ∷ [])

-- The budget is used up: the fallback backend takes over.
unfoldable pub promote : ℕ → ArchiveJob → ArchiveJobConfig → ArchiveJob
promote now j cfg =
    let policy = cfg.execution_policy in
    let fallback : String = policy_text policy.fallback_backend "none" in
    record j {
      config = some (
          Job.to_dict (record cfg {
            execution_policy = record policy {
              last_promoted_from_backend = some (policy_text policy.capture_backend "browsertrix");
              last_promotion_reason = some fresh_failure_budget_exhausted;
              capture_backend = fallback;
            };
          }));
      retry_count = 0;
      status = "retryable";
      crawler_stage = some (promoted_stage fallback);
      updated_at = now;
    }

-- The failure stays within the budget.
unfoldable pub spend_budget : ℕ → ArchiveJob → ArchiveJobConfig → ArchiveJob
spend_budget now j cfg = record j {
  retry_count = j.retry_count + 1;
  config = some (Job.to_dict cfg);
  status = "retryable";
  crawler_stage = some "fresh_failed";
  updated_at = now;
}

-- A failure of a fallback backend.
unfoldable pub retry_fallback : ℕ → ArchiveJob → ExecutionPolicy → ArchiveJob
retry_fallback now j policy =
    let counted = record j { retry_count = j.retry_count + 1; updated_at = now } in
    if ltb (j.retry_count + 1) max_crawl_retries
    then record counted {
      status = "retryable";
      crawler_stage = some (concat (policy_text policy.capture_backend "browsertrix") "_retry");
    }
    else flag_for_review now
        (record counted { status = "failed"; crawler_stage = some "fallback_exhausted" })

-- A failure with no fallback to go to: the status is left alone at the end of the retries.
unfoldable pub retry_plain : ℕ → ArchiveJob → ArchiveJob
retry_plain now j =
    if ltb j.retry_count max_crawl_retries
    then record j { retry_count = j.retry_count + 1; status = "retryable"; updated_at = now }
    else flag_for_review now j

unfoldable pub apply_failure_policy : (String → Option PolicyDict) → ℕ → ArchiveJob → ArchiveJob
apply_failure_policy profiles now j =
    let stored = Job.from_dict (or_else j.config no_config) in
    let policy = pinned_policy profiles j stored.execution_policy in
    let cfg = record stored { execution_policy = policy } in
    if has_fresh_budget policy
    then (if reaches (j.retry_count + 1) policy.max_fresh_failures_before_fallback
        then promote now j cfg
        else spend_budget now j cfg)
    else if is_fallback_backend policy
    then retry_fallback now j policy
    else retry_plain now j
