-- ===== src/Worker/Pinned.antt =====
-- src/ha_backend/worker/main.py, _apply_failure_policy: what pinning the primary backend leaves of a
-- policy.
use healtharchive.Base.{ℕ, String, ◌≡◌, Option, arith}
use healtharchive.Contract.Policy.{ExecutionPolicy, PolicyDict}
use healtharchive.Jobs.{ArchiveJob}
use healtharchive.Worker.Failure.{has_fresh_budget, is_fallback_backend, pinned_policy}
use healtharchive.Worker.Backends.{HasValidBackends}

module _ (profiles : String → Option PolicyDict) (now : ℕ) where
  -- Pinning the primary backend leaves the rest of the policy alone.
  pub pinned-HasValidBackends :
      (j : ArchiveJob) (p : ExecutionPolicy)
      → HasValidBackends p
      → HasValidBackends (pinned_policy profiles j p)
  unfolding pinned_policy
  pinned-HasValidBackends j p v = ground (arith, v.capture, v.fallback)

  pub has_fresh_budget-pinned :
      (j : ArchiveJob) (p : ExecutionPolicy)
      → has_fresh_budget (pinned_policy profiles j p) ≡ has_fresh_budget p
  unfolding pinned_policy has_fresh_budget
  has_fresh_budget-pinned j p = ground arith

  pub is_fallback_backend-pinned :
      (j : ArchiveJob) (p : ExecutionPolicy)
      → is_fallback_backend (pinned_policy profiles j p) ≡ is_fallback_backend p
  unfolding pinned_policy is_fallback_backend
  is_fallback_backend-pinned j p = ground arith

  pub limit-pinned :
      (j : ArchiveJob) (p : ExecutionPolicy)
      → (pinned_policy profiles j p).max_fresh_failures_before_fallback
        ≡ p.max_fresh_failures_before_fallback
  unfolding pinned_policy
  limit-pinned j p = ground arith
