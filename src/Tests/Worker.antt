-- ===== src/Tests/Worker.antt =====
-- The worker at sample rows.
use healtharchive.Base.{true}
use healtharchive.Base.{◌≡◌, refl, none, some, arith}
use healtharchive.Base.Int.{pos}
use healtharchive.Base.Text.{strip}
use healtharchive.Contract.Policy
use healtharchive.Contract.Policy.{normalize}
use healtharchive.Contract.Job
use healtharchive.Rescue.{policy_of, infer_primary_backend}
use healtharchive.Jobs.{ArchiveJob}
use healtharchive.Jobs.Run.{run_row}
use healtharchive.Worker.Failure.{
  apply_failure_policy, pinned_policy, has_fresh_budget, is_fallback_backend, promote, spend_budget,
  retry_fallback, retry_plain, flag_for_review,
}
use healtharchive.Rescue.{derive_crawl_rescue_status}
use healtharchive.Worker.Failure.{policy_text}
use healtharchive.Worker.Promoted.{IsPromotedTo, derive-promote}
use healtharchive.Tests.Samples.{annual_config}
use healtharchive.Worker.Backends.{HasValidBackends}
use healtharchive.Worker.Budget.{keep_failing, keep_failing-status, budget_left}
use healtharchive.Worker.Guards.{tier_annual_job_if_needed, skipped}
use healtharchive.Jobs.Run.{mark_infra_error}
use healtharchive.Worker.Recovery.{free, recover_stale_running_jobs}
use healtharchive.Worker.Selection.{select_next_index_job}
use healtharchive.Base.First.{SelectsFirst}
use healtharchive.Worker.Stale.{Recovers, recover_stale_running_jobs-Recovers}
use healtharchive.Worker.Queue.{IsCrawled, InOrder, select_next_index_job-cases}
use healtharchive.Worker.Process.{after_crawl}
use healtharchive.Worker.Steps.{tier-run_row, infra_error_cap_undone}
use healtharchive.Tests.Samples.{annual_job, worn_job, two_jobs, no_profiles, world_with, iteration}

annual-HasValidBackends : HasValidBackends (policy_of annual_job.config)
unfolding normalize Policy.from_dict Job.from_dict
annual-HasValidBackends = record { capture = refl; fallback = refl }

annual_budget : budget_left (policy_of annual_job.config) 0 ≡ 4
unfolding normalize Policy.from_dict Job.from_dict has_fresh_budget
annual_budget = refl

keep_failing-status_example : (keep_failing no_profiles 1 4 annual_job).status ≡ "failed"
keep_failing-status_example =
    keep_failing-status no_profiles 1 4 annual_job annual-HasValidBackends
      (omega (arith, annual_budget))

-- The fourth failure is the last one: after three the job is still retryable.
three_failures : (keep_failing no_profiles 1 3 annual_job).status ≡ "retryable"
unfolding keep_failing apply_failure_policy pinned_policy infer_primary_backend has_fresh_budget
    is_fallback_backend promote spend_budget retry_fallback retry_plain flag_for_review normalize
    Policy.from_dict Policy.to_dict Job.from_dict Job.to_dict
three_failures = refl

tier-run_row_example :
    tier_annual_job_if_needed iteration.tier (run_row (world_with (pos 0)) annual_job).0 ≡ skipped
tier-run_row_example =
    tier-run_row (world_with (pos 0)) iteration.tier annual_job
      (unfold strip Policy.from_dict Job.from_dict in refl)

recover_stale_running_jobs-Recovers_example :
    Recovers 900000
      (λ j. free)
      (λ j. none)
      two_jobs
      (recover_stale_running_jobs 900000 (λ j. free) (λ j. none) two_jobs).0
      (recover_stale_running_jobs 900000 (λ j. free) (λ j. none) two_jobs).1
recover_stale_running_jobs-Recovers_example =
    recover_stale_running_jobs-Recovers 900000 (λ j. free) (λ j. none) two_jobs

select_next_index_job-cases_example :
    SelectsFirst IsCrawled
      (λ j k. InOrder j.finished_at j.id k.finished_at k.id)
      two_jobs
      (select_next_index_job two_jobs)
select_next_index_job-cases_example = select_next_index_job-cases two_jobs

infra_error_cap_undone_example :
    ((mark_infra_error worn_job).status ≡ "failed")
    × ((k : ArchiveJob) × (after_crawl iteration (pos 1) (mark_infra_error worn_job) ≡ some k)
        × (k.status ≡ "retryable")
        × (k.retry_count ≡ 5))
infra_error_cap_undone_example = infra_error_cap_undone iteration (pos 1) worn_job (omega arith)

abbrev annual_cfg : Job.ArchiveJobConfig
annual_cfg = Job.from_dict annual_config

annual-has_fresh_budget : has_fresh_budget annual_cfg.execution_policy ≡ true
unfolding normalize Policy.from_dict Job.from_dict has_fresh_budget
annual-has_fresh_budget = refl

derive-promote_example :
    IsPromotedTo (policy_text annual_cfg.execution_policy.fallback_backend "none") (
      derive_crawl_rescue_status no_profiles
        (promote 9000 annual_job annual_cfg).source_code
        (promote 9000 annual_job annual_cfg).config
        (promote 9000 annual_job annual_cfg).crawler_stage
        none)
derive-promote_example =
    derive-promote 9000 annual_job annual_cfg annual-HasValidBackends annual-has_fresh_budget
      no_profiles
