-- ===== src/Worker/Promoted.antt =====
-- src/ha_backend/worker/main.py and crawl_rescue_status.py: how the status reads a job that the
-- failure policy has promoted to its fallback backend.
use healtharchive.Base.{
  ℕ, String, ◌≡◌, ◌≢◌, sym, ap, ◌∙◌, true, Option, none, some, arith, str_eq_iff, str_eq_refl,
}
use healtharchive.Contract.Policy.{ExecutionPolicy, PolicyDict, normalize, or_text}
use healtharchive.Contract.Job
use healtharchive.Contract.Job.{ConfigDict, ArchiveJobConfig}
use healtharchive.Rescue.{
  CrawlRescueStatus, derive_crawl_rescue_status, normalize_backend, policy_of, promoted_stage,
}
use healtharchive.Jobs.{ArchiveJob}
use healtharchive.Worker.Failure.{has_fresh_budget, policy_text, promote}
use healtharchive.Worker.Backends.{
  HasValidBackends, has_fresh_budget-elim, policy_text-normalize, fallback-ne_empty,
  fallback-IsStable, reload, reload-capture, reload-fallback, normalize_empty,
}
use healtharchive.Worker.Budget.{promoted, promoted-HasValidBackends, policy_of-to_dict}

-- A status that says that the fallback `f` runs because the stage says so.
abbrev pub IsPromotedTo : String → CrawlRescueStatus → Type 0
IsPromotedTo f r =
    (r.effective_backend ≡ f)
    × (r.fallback_backend ≡ f)
    × (r.fallback_active ≡ true)
    × (r.promoted_to_fallback ≡ true)
    × (r.promotion_signal ≡ some "crawler_stage")

derive-promoted :
    (profiles : String → Option PolicyDict) (source : Option String) (config : Option ConfigDict)
    (f : String)
    → normalize_backend (some (policy_of config).capture_backend) "browsertrix" ≡ f
    → normalize_backend (some (policy_of config).fallback_backend) "none" ≡ f
    → f ≢ "none"
    → IsPromotedTo f
        (derive_crawl_rescue_status profiles source config (some (promoted_stage f)) none)
unfolding derive_crawl_rescue_status
derive-promoted profiles source config f c b ne = ground (
  arith,
  c,
  b,
  ne,
  normalize_empty,
  str_eq_iff f "none",
  str_eq_refl f,
  str_eq_refl (promoted_stage f),
)

or_text-set : (s d : String) → s ≢ "" → or_text s d ≡ s
or_text-set s d h = ground (arith, str_eq_iff s "")

module _ (now : ℕ) (j : ArchiveJob) (cfg : ArchiveJobConfig)
    (v : HasValidBackends cfg.execution_policy)
    (fresh : has_fresh_budget cfg.execution_policy ≡ true) where
  abbrev after : ExecutionPolicy
  after = promoted now j cfg v fresh

  abbrev backend : String
  backend = policy_text cfg.execution_policy.fallback_backend "none"

  backend-normalize : backend ≡ normalize cfg.execution_policy.fallback_backend
  backend-normalize =
      policy_text-normalize cfg.execution_policy.fallback_backend "none"
        (fallback-ne_empty cfg.execution_policy v)

  after-HasValidBackends : HasValidBackends after
  after-HasValidBackends = promoted-HasValidBackends now j cfg v fresh

  -- The fallback backend, stored and read back.
  stored_fallback : or_text (normalize (reload after).fallback_backend) "none" ≡ backend
  stored_fallback =
      ap (λ s. or_text s "none") (reload-fallback after after-HasValidBackends)
      ∙ or_text-set (normalize cfg.execution_policy.fallback_backend) "none"
          (fallback-ne_empty cfg.execution_policy v)
      ∙ sym backend-normalize

  -- The capture backend is the fallback backend, stored and read back.
  stored_capture : or_text (normalize (reload after).capture_backend) "browsertrix" ≡ backend
  stored_capture =
      let stable = fallback-IsStable cfg.execution_policy v in
      ap (λ s. or_text s "browsertrix")
        (reload-capture after after-HasValidBackends ∙ ap normalize backend-normalize ∙ stable.1)
      ∙ or_text-set (normalize cfg.execution_policy.fallback_backend) "browsertrix" stable.0
      ∙ sym backend-normalize

  -- A job that the failure policy promotes, with valid backends and a fresh-failure budget, is derived
  -- as promoted to its fallback backend, by its stage, and as running that backend, where no statistics
  -- name a backend.
  pub derive-promote :
      (profiles : String → Option PolicyDict)
      → IsPromotedTo (policy_text cfg.execution_policy.fallback_backend "none") (
          derive_crawl_rescue_status profiles
            (promote now j cfg).source_code
            (promote now j cfg).config
            (promote now j cfg).crawler_stage
            none)
  unfolding promote
  derive-promote profiles =
      let stored : ArchiveJobConfig = record cfg { execution_policy = after } in
      derive-promoted profiles j.source_code (some (Job.to_dict stored)) backend
        (rw (policy_of-to_dict stored) stored_capture)
        (rw (policy_of-to_dict stored) stored_fallback)
        (has_fresh_budget-elim cfg.execution_policy fresh).2
