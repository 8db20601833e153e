-- ===== src/Worker/Steps.antt =====
-- src/ha_backend/worker/main.py: what the parts of one worker iteration do to the table of jobs.
use healtharchive.Base.{◌≤◌, ◌≡◌, refl, inl, inr, true, some, arith, Option-cases, str_eq}
use healtharchive.Base.Int.{ℤ}
use healtharchive.Base.Text.{strip}
use healtharchive.Contract.Policy.{text_of}
use healtharchive.Rescue.{policy_of}
use healtharchive.Jobs.{ArchiveJob}
use healtharchive.Jobs.Run.{mark_infra_error, max_infra_error_retries, run_row, World}
use healtharchive.Jobs.Table.{campaign_kind-run_row}
use healtharchive.Worker.Guards.{TierProbe, skipped, tier_annual_job_if_needed}
use healtharchive.Worker.Process.{Iteration, after_crawl}

mark_infra_error_capped :
    (j : ArchiveJob)
    → max_infra_error_retries ≤ j.retry_count
    → mark_infra_error j ≡ record j { status = "failed"; crawler_status = some "infra_error" }
unfolding mark_infra_error
mark_infra_error_capped j h = ground arith

-- A row at the cap on infra errors is marked as failed, and the worker makes that row retryable again
-- after the crawl, with its retry count unchanged.
pub infra_error_cap_undone :
    (it : Iteration) (rc : ℤ) (j : ArchiveJob)
    → max_infra_error_retries ≤ j.retry_count
    → ((mark_infra_error j).status ≡ "failed")
      × ((k : ArchiveJob) × (after_crawl it rc (mark_infra_error j) ≡ some k)
          × (k.status ≡ "retryable")
          × (k.retry_count ≡ j.retry_count))
unfolding after_crawl
infra_error_cap_undone it rc j h = rw (mark_infra_error_capped j h) (
  refl,
  (
    record j { status = "retryable"; crawler_status = some "infra_error"; updated_at = it.resumed },
    refl,
    refl,
    refl,
  ),
)

-- After a run of a job whose stored policy names no primary backend the tiering guard takes the job
-- for one that is not annual, whatever the state of its directory.
pub tier-run_row :
    (w : World) (p : TierProbe) (j : ArchiveJob)
    → str_eq (strip (text_of (policy_of j.config).primary_backend)) "" ≡ true
    → tier_annual_job_if_needed p (run_row w j).0 ≡ skipped
unfolding tier_annual_job_if_needed
tier-run_row w p j blank = elim (Option-cases (run_row w j).0.config) [
  | inl e ↦ ground arith
  | inr (d, e) ↦ ground (arith, campaign_kind-run_row w j blank d e)
]
