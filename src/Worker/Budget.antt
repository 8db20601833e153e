-- ===== src/Worker/Budget.antt =====
-- src/ha_backend/worker/main.py, _apply_failure_policy: what one failure leaves of the retry budget,
-- and that repeated failures use it up.
use Prim.Native.Nat.{max}
use healtharchive.Base.{
  ℕ, zero, suc, String, ◌+◌, ◌-◌, ◌≤◌, ◌<◌, ◌≡◌, ◌⊎◌, inl, inr, refl, sym, ◌∙◌, true, false, Option,
  some, arith, str_eq, ltb, or_else, Bool-cases, if◌then◌else◌,
}
use healtharchive.Base.Int.{ℤ, pos, negsuc, pos_part, reaches}
use healtharchive.Contract.Policy.{ExecutionPolicy, PolicyDict}
use healtharchive.Contract.Job
use healtharchive.Contract.Job.{ArchiveJobConfig, no_config}
use healtharchive.Rescue.{policy_of, fresh_failure_budget_exhausted}
use healtharchive.Jobs.{ArchiveJob}
use healtharchive.Worker.Failure.{
  has_fresh_budget, is_fallback_backend, pinned_policy, promote, spend_budget, retry_fallback,
  retry_plain, flag_for_review, apply_failure_policy, policy_text,
}
use healtharchive.Worker.Backends.{
  HasValidBackends, reload, reload-HasValidBackends, reload-has_fresh_budget, limit-reload,
  InFallback, InFallback-http, InFallback-playwright, fallback_set-cases, has_fresh_budget-elim,
}
use healtharchive.Worker.Pinned.{
  pinned-HasValidBackends, has_fresh_budget-pinned, is_fallback_backend-pinned, limit-pinned,
}

-- How many failures a job with this policy and retry count can still take, the last one included.
abbrev pub budget_left : ExecutionPolicy → ℕ → ℕ
budget_left p retries =
    if has_fresh_budget p
    then max (pos_part p.max_fresh_failures_before_fallback - retries) 1 + 2
    else if is_fallback_backend p
    then max (2 - retries) 1
    else (2 - retries) + 1

-- What run_persistent_job writes to the row after a plain failure: the crawl ended with a code other
-- than 0, and neither the log nor the output directory points to an infra or a configuration error. Of
-- its writes those that the failure policy reads are kept.
abbrev pub crawl_failed : ArchiveJob → ArchiveJob
crawl_failed j = record j { status = "failed"; crawler_status = some "failed" }

module _ (profiles : String → Option PolicyDict) (now : ℕ) where
  abbrev pub fail : ArchiveJob → ArchiveJob
  fail j = apply_failure_policy profiles now (crawl_failed j)

  -- The job is crawled again while it is retryable, and each crawl ends in a plain failure.
  unfoldable pub keep_failing : ℕ → ArchiveJob → ArchiveJob
  keep_failing zero j = j
  keep_failing (suc n) j = elim (str_eq (fail j).status "retryable") [
    | true ↦ keep_failing n (fail j)
    | false ↦ fail j
  ]

-- A job after a failure: it is failed for good, or it is retryable with less of its budget left.
abbrev pub Progress : ℕ → ArchiveJob → Type 0
Progress left j =
    (j.status ≡ "failed")
    ⊎ ((j.status ≡ "retryable")
        × HasValidBackends (policy_of j.config)
        × (budget_left (policy_of j.config) j.retry_count < left))

-- A failure past the retries leaves the status.
status-flag_for_review : (now : ℕ) (j : ArchiveJob) → (flag_for_review now j).status ≡ j.status
unfolding flag_for_review
status-flag_for_review now j = ground arith

module _ (now : ℕ) (j : ArchiveJob) (v : HasValidBackends (policy_of j.config)) where
  retry_plain-Progress :
      j.status ≡ "failed"
      → has_fresh_budget (policy_of j.config) ≡ false
      → is_fallback_backend (policy_of j.config) ≡ false
      → Progress (budget_left (policy_of j.config) j.retry_count) (retry_plain now j)
  unfolding retry_plain
  retry_plain-Progress s f b = elim (Bool-cases (ltb j.retry_count 2)) [
    | inl e ↦ rw e (inr (refl, v, rw (f, b) (ground arith)))
    | inr e ↦ rw e (inl (status-flag_for_review now j ∙ s))
  ]

  retry_fallback-Progress :
      has_fresh_budget (policy_of j.config) ≡ false
      → is_fallback_backend (policy_of j.config) ≡ true
      → (p : ExecutionPolicy)
      → Progress (budget_left (policy_of j.config) j.retry_count) (retry_fallback now j p)
  unfolding retry_fallback
  retry_fallback-Progress f b p = elim (Bool-cases (ltb (j.retry_count + 1) 2)) [
    | inl e ↦ rw e (inr (refl, v, rw (f, b) (ground arith)))
    | inr e ↦ rw e (inl (status-flag_for_review now _))
  ]

below_limit : (n : ℕ) (z : ℤ) → reaches n z ≡ false → n < pos_part z
below_limit n (pos m) h = ground arith
below_limit n (negsuc m) h = cc

-- The policy of a row whose config is the stored form of `cfg`.
pub policy_of-to_dict :
    (cfg : ArchiveJobConfig) → policy_of (some (Job.to_dict cfg)) ≡ reload cfg.execution_policy
unfolding Job.to_dict Job.from_dict
policy_of-to_dict cfg = refl

module _ (now : ℕ) (j : ArchiveJob) (cfg : ArchiveJobConfig)
    (v : HasValidBackends cfg.execution_policy)
    (fresh : has_fresh_budget cfg.execution_policy ≡ true) where
  spend_budget-Progress :
      reaches (j.retry_count + 1) cfg.execution_policy.max_fresh_failures_before_fallback ≡ false
      → Progress (budget_left cfg.execution_policy j.retry_count) (spend_budget now j cfg)
  unfolding spend_budget
  spend_budget-Progress r =
      let q = cfg.execution_policy in
      inr (
        refl,
        rw (policy_of-to_dict cfg) (reload-HasValidBackends q v),
        rw (policy_of-to_dict cfg, reload-has_fresh_budget q v fresh, fresh, limit-reload q v)
            (omega (arith, below_limit (j.retry_count + 1) q.max_fresh_failures_before_fallback r)),
      )

  -- The policy after the promotion: the fallback backend captures.
  abbrev pub promoted : ExecutionPolicy
  promoted = record cfg.execution_policy {
    last_promoted_from_backend =
        some (policy_text cfg.execution_policy.capture_backend "browsertrix");
    last_promotion_reason = some fresh_failure_budget_exhausted;
    capture_backend = policy_text cfg.execution_policy.fallback_backend "none";
  }

  promoted-InFallback : InFallback promoted
  promoted-InFallback =
      let (c, r, f, m) = has_fresh_budget-elim cfg.execution_policy fresh in
      elim (fallback_set-cases cfg.execution_policy v f) [
        | inl e ↦ InFallback-http promoted e
        | inr e ↦ InFallback-playwright promoted e
      ]

  pub promoted-HasValidBackends : HasValidBackends promoted
  promoted-HasValidBackends = record { capture = promoted-InFallback.0; fallback = v.fallback }

  promote-Progress : Progress (budget_left cfg.execution_policy j.retry_count) (promote now j cfg)
  unfolding promote
  promote-Progress =
      let stored = record cfg { execution_policy = promoted } in
      inr (
        refl,
        rw (policy_of-to_dict stored) (reload-HasValidBackends promoted promoted-HasValidBackends),
        rw (policy_of-to_dict stored, promoted-InFallback.1, promoted-InFallback.2, fresh)
            (omega arith),
      )

budget_left-pos : (p : ExecutionPolicy) (r : ℕ) → 1 ≤ budget_left p r
budget_left-pos p r = ground arith

module _ (profiles : String → Option PolicyDict) (now : ℕ) where
  budget_left-pinned :
      (j : ArchiveJob) (p : ExecutionPolicy) (r : ℕ)
      → budget_left (pinned_policy profiles j p) r ≡ budget_left p r
  budget_left-pinned j p r = rw (
    has_fresh_budget-pinned profiles now j p,
    is_fallback_backend-pinned profiles now j p,
    limit-pinned profiles now j p,
  )

  -- One failure: the job is failed for good, or it is retryable with less of its budget left.
  fail-Progress :
      (j : ArchiveJob)
      → HasValidBackends (policy_of j.config)
      → Progress (budget_left (policy_of j.config) j.retry_count) (fail profiles now j)
  unfolding apply_failure_policy
  fail-Progress j v =
      let k = crawl_failed j in
      let p = policy_of j.config in
      let q = pinned_policy profiles k p in
      let vq = pinned-HasValidBackends profiles now k p v in
      let cfg = record (Job.from_dict (or_else j.config no_config)) { execution_policy = q } in
      let same : budget_left q j.retry_count ≡ budget_left p j.retry_count =
        budget_left-pinned k p j.retry_count in
      let still : has_fresh_budget q ≡ has_fresh_budget p =
        has_fresh_budget-pinned profiles now k p in
      let stays : is_fallback_backend q ≡ is_fallback_backend p =
        is_fallback_backend-pinned profiles now k p in
      elim (Bool-cases (has_fresh_budget q)) [
        | inl fresh ↦
            elim (Bool-cases (reaches (j.retry_count + 1) q.max_fresh_failures_before_fallback)) [
              | inl done ↦ rw (fresh, done, ← same) (promote-Progress now k cfg vq fresh)
              | inr more ↦ rw (fresh, more, ← same) (spend_budget-Progress now k cfg vq fresh more)
            ]
        | inr plain ↦ elim (Bool-cases (is_fallback_backend q)) [
          | inl fb ↦
              rw (plain, fb)
                (retry_fallback-Progress now k v (sym still ∙ plain) (sym stays ∙ fb) q)
          | inr nf ↦
              rw (plain, nf)
                (retry_plain-Progress now k v refl (sym still ∙ plain) (sym stays ∙ nf))
        ]
      ]

  keep_done :
      (n : ℕ) (j : ArchiveJob)
      → (fail profiles now j).status ≡ "failed"
      → keep_failing profiles now (suc n) j ≡ fail profiles now j
  unfolding keep_failing apply_failure_policy
  keep_done n j e = rw (e, keep_failing) refl

  keep_again :
      (n : ℕ) (j : ArchiveJob)
      → (fail profiles now j).status ≡ "retryable"
      → keep_failing profiles now (suc n) j ≡ keep_failing profiles now n (fail profiles now j)
  unfolding keep_failing apply_failure_policy
  keep_again n j e = rw (e, keep_failing) refl

  -- A job whose stored backends are valid, whose every crawl ends in a plain failure, which is neither an
  -- infra nor a configuration error, and which is crawled again while it is retryable, is failed after
  -- at most `budget_left` failures: the fresh-failure budget, then the retries of the fallback backend.
  pub keep_failing-status :
      (n : ℕ) (j : ArchiveJob)
      → HasValidBackends (policy_of j.config)
      → budget_left (policy_of j.config) j.retry_count ≤ n
      → (keep_failing profiles now n j).status ≡ "failed"
  keep_failing-status zero j v h =
      absurd (omega (arith, budget_left-pos (policy_of j.config) j.retry_count))
  keep_failing-status (suc n) j v h = elim (fail-Progress j v) [
    | inl done ↦ rw (keep_done n j done) done
    | inr (again, v', less) ↦
        rw (keep_again n j again) (keep_failing-status n (fail profiles now j) v' (omega arith))
  ]
