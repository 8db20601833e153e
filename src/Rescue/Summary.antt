-- ===== src/Rescue/Summary.antt =====
-- src/ha_backend/crawl_rescue_status.py: the derived labels of CrawlRescueStatus, and
-- summarize_crawl_operator_state.
use healtharchive.Base.{
  String, Bool, false, ◌&&◌, ◌||◌, not, Option, none, some, str_eq, opt_is, if◌then◌else◌, [], ◌∷◌,
  str_mem,
}
use healtharchive.Base.Text.{concat, ends_with}
use healtharchive.Base.Int.{is_positive}
use healtharchive.Contract.Policy.{normalize, or_text, text_of}
use healtharchive.Rescue.{
  CrawlRescueStatus, fresh_failure_budget_exhausted, warc_complete_finalization_failed,
  warc_complete_finalization_failed_status, promoted_stage,
}

-- `stage and stage.endswith("_retry")`
abbrev pub is_retry_stage : Option String → Bool
is_retry_stage none = false
is_retry_stage (some stage) = not (str_eq stage "") && ends_with stage "_retry"

unfoldable pub short_status : CrawlRescueStatus → String
short_status r =
    if r.promoted_to_fallback && r.fallback_active
    then "fallback-active"
    else if opt_is r.crawler_stage "fresh_failed"
    then "fresh-failed"
    else if opt_is r.crawler_stage "fallback_exhausted"
    then "fallback-exhausted"
    else if opt_is r.crawler_stage warc_complete_finalization_failed
    then warc_complete_finalization_failed_status
    else if is_retry_stage r.crawler_stage
    then "fallback-retry"
    else "normal"

-- `a or b` of two optional texts
abbrev pub or_default : Option String → String → String
or_default o d = or_text (text_of o) d

unfoldable pub fallback_backend_label : CrawlRescueStatus → String
fallback_backend_label r = if r.fallback_configured then r.fallback_backend else "none"

unfoldable pub note : CrawlRescueStatus → Option String
note r =
    if r.promoted_to_fallback
    then (if opt_is r.last_promotion_reason fresh_failure_budget_exhausted
          || opt_is r.crawler_stage (promoted_stage r.fallback_backend)
        then some (
            concat "promoted from " (
              concat (or_default r.last_promoted_from_backend r.primary_backend) (
                concat " to "
                  (concat r.fallback_backend " after fresh-failure budget exhaustion"))))
        else some (concat "fallback backend " (concat r.fallback_backend " is active")))
    else if opt_is r.crawler_stage "fresh_failed" && is_positive r.fresh_failure_budget
    then some (
        concat "fresh "
          (concat r.primary_backend " phase failed; job remains within fresh-failure budget"))
    else if opt_is r.crawler_stage "fallback_exhausted"
    then some
        (concat "fallback backend " (concat r.effective_backend " exhausted its retry budget"))
    else if opt_is r.crawler_stage warc_complete_finalization_failed
    then some (
        concat "WARC capture completed; optional ZIM finalization failed and WARC output "
          "was accepted for indexing")
    else if is_retry_stage r.crawler_stage
    then some (concat "retrying fallback backend " r.effective_backend)
    else none

pub record CrawlOperatorState : Type 0 where
  pub label : String
  pub note : Option String

abbrev pub operator : String → Option String → CrawlOperatorState
operator l n = record { label = l; note = n }

-- `r.note or f"fallback backend {r.effective_backend} is …"`
abbrev pub note_or : CrawlRescueStatus → String → Option String
note_or r ending =
    some (or_default (note r) (concat "fallback backend " (concat r.effective_backend ending)))

abbrev pub running_state : CrawlRescueStatus → CrawlOperatorState
running_state r =
    if r.fallback_active
    then operator "running-fallback" (note_or r " is active")
    else if str_eq (short_status r) "normal"
    then operator "running-primary" none
    else operator "running-rescue" (note r)

abbrev pub waiting_state : String → CrawlRescueStatus → CrawlOperatorState
waiting_state status r =
    if str_eq (short_status r) "fresh-failed"
    then operator "waiting-fresh-retry" (
        some (
          concat "awaiting next fresh "
            (concat r.primary_backend " retry within the configured rescue budget")))
    else if str_eq (short_status r) "fallback-retry"
    then operator "waiting-fallback-retry" (
        some (
          concat "awaiting next retry of fallback backend "
            (concat r.effective_backend "; not terminal yet")))
    else if r.fallback_active
    then operator "waiting-fallback" (note_or r " is configured")
    else if str_eq status "queued"
    then operator "queued" none
    else operator "waiting-retry" (note r)

unfoldable pub summarize_crawl_operator_state :
    Option String → CrawlRescueStatus → CrawlOperatorState
unfolding short_status note
summarize_crawl_operator_state job_status r =
    let status : String = or_text (normalize (text_of job_status)) "unknown" in
    if str_eq status "running"
    then running_state r
    else if str_mem status ("queued" ∷ "retryable" ∷ [])
    then waiting_state status r
    else if str_eq status "completed"
    then (if str_eq (short_status r) warc_complete_finalization_failed_status
        then operator "awaiting-index-warc-complete" (note r)
        else operator "awaiting-index" none)
    else if str_eq status "indexing"
    then operator "indexing" none
    else if str_eq status "indexed"
    then operator "search-ready" (note r)
    else if str_eq status "index_failed"
    then operator "index-failed" (some "crawl completed; indexing needs attention")
    else if str_eq status "failed"
    then (if str_eq (short_status r) "fallback-exhausted"
        then operator "failed-fallback-exhausted" (note r)
        else operator "failed" (note r))
    else operator status (note r)
