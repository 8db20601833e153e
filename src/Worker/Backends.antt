-- ===== src/Worker/Backends.antt =====
-- The backends of a stored policy, and how a store and a load carry them.
use healtharchive.Base.{
  String, ◌≡◌, ◌≢◌, ◌⊎◌, inl, inr, refl, true, false, [], ◌∷◌, arith, sym, ap, ◌∙◌, str_eq,
  str_eq_iff, str_mem,
}
use healtharchive.Base.Int.{is_positive}
use healtharchive.Contract.Policy
use healtharchive.Contract.Policy.{
  ExecutionPolicy, PolicyDict, normalize, or_text, valid_capture_backends, valid_fallback_backends,
}
use healtharchive.Worker.Failure.{has_fresh_budget, is_fallback_backend, policy_text}

-- The backends of a policy are ones that validation accepts.
pub record HasValidBackends (p : ExecutionPolicy) : Type 0 where
  pub capture : str_mem (normalize p.capture_backend) valid_capture_backends ≡ true
  pub fallback : str_mem (normalize p.fallback_backend) valid_fallback_backends ≡ true

-- A stored policy, read back.
abbrev pub reload : ExecutionPolicy → ExecutionPolicy
reload p = Policy.from_dict (Policy.to_dict p)

pub mem_three :
    (s a b c : String) → str_mem s (a ∷ b ∷ c ∷ []) ≡ true → (s ≡ a) ⊎ ((s ≡ b) ⊎ (s ≡ c))
mem_three s a b c h = ground (arith, str_eq_iff s a, str_eq_iff s b, str_eq_iff s c)

-- Normalisation of the empty text.
pub normalize_empty : normalize "" ≡ ""
unfolding normalize
normalize_empty = refl

-- A text that normalises to something is not empty, so the default does not step in.
pub policy_text-normalize : (s d : String) → normalize s ≢ "" → policy_text s d ≡ normalize s
policy_text-normalize s d h = ground (arith, str_eq_iff s "", normalize_empty)

module _ (p : ExecutionPolicy) (v : HasValidBackends p) where
  pub capture-cases :
      (normalize p.capture_backend ≡ "browsertrix")
      ⊎ ((normalize p.capture_backend ≡ "http_warc")
          ⊎ (normalize p.capture_backend ≡ "playwright_warc"))
  capture-cases = mem_three _ _ _ _ v.capture

  pub fallback-cases :
      (normalize p.fallback_backend ≡ "none")
      ⊎ ((normalize p.fallback_backend ≡ "http_warc")
          ⊎ (normalize p.fallback_backend ≡ "playwright_warc"))
  fallback-cases = mem_three _ _ _ _ v.fallback

  pub capture-ne_empty : normalize p.capture_backend ≢ ""
  capture-ne_empty e = cc (sym v.capture ∙ ap (λ s. str_mem s valid_capture_backends) e)

  pub fallback-ne_empty : normalize p.fallback_backend ≢ ""
  fallback-ne_empty e = cc (sym v.fallback ∙ ap (λ s. str_mem s valid_fallback_backends) e)

-- What is stored for a normalised backend reads back as that backend.
stored-backend :
    (s d c : String)
    → normalize s ≡ c
    → c ≢ ""
    → normalize c ≡ c
    → normalize (or_text (normalize s) d) ≡ c
stored-backend s d c e ne fix = rw e (ground (arith, fix, str_eq_iff c ""))

normalize-http : normalize "http_warc" ≡ "http_warc"
unfolding normalize
normalize-http = refl

normalize-playwright : normalize "playwright_warc" ≡ "playwright_warc"
unfolding normalize
normalize-playwright = refl

pub normalize-browsertrix : normalize "browsertrix" ≡ "browsertrix"
unfolding normalize
normalize-browsertrix = refl

normalize-none : normalize "none" ≡ "none"
unfolding normalize
normalize-none = refl

ne_empty : (s : String) → str_eq s "" ≡ false → s ≢ ""
ne_empty s h = ground (arith, str_eq_iff s "")

-- Backends that normalisation leaves alone.
abbrev pub IsStable : String → Type 0
IsStable s = (s ≢ "") × (normalize s ≡ s)

module _ (p : ExecutionPolicy) (v : HasValidBackends p) where
  pub capture-IsStable : IsStable (normalize p.capture_backend)
  capture-IsStable = (
    capture-ne_empty p v,
    elim (capture-cases p v) [
      | inl e ↦ rw e normalize-browsertrix
      | inr (inl e) ↦ rw e normalize-http
      | inr (inr e) ↦ rw e normalize-playwright
    ],
  )

  pub fallback-IsStable : IsStable (normalize p.fallback_backend)
  fallback-IsStable = (
    fallback-ne_empty p v,
    elim (fallback-cases p v) [
      | inl e ↦ rw e normalize-none
      | inr (inl e) ↦ rw e normalize-http
      | inr (inr e) ↦ rw e normalize-playwright
    ],
  )

  pub reload-capture : normalize (reload p).capture_backend ≡ normalize p.capture_backend
  unfolding Policy.to_dict Policy.from_dict
  reload-capture =
      stored-backend p.capture_backend "browsertrix" _ refl capture-IsStable.0 capture-IsStable.1

  pub reload-fallback : normalize (reload p).fallback_backend ≡ normalize p.fallback_backend
  unfolding Policy.to_dict Policy.from_dict
  reload-fallback =
      stored-backend p.fallback_backend "none" _ refl fallback-IsStable.0 fallback-IsStable.1

  pub reload-HasValidBackends : HasValidBackends (reload p)
  reload-HasValidBackends = record {
    capture = rw reload-capture v.capture;
    fallback = rw reload-fallback v.fallback;
  }

-- The three conditions of the fresh-failure budget, and the limit being positive.
abbrev pub FreshBudget : ExecutionPolicy → Type 0
FreshBudget p =
    (policy_text p.capture_backend "browsertrix" ≡ "browsertrix")
    × (policy_text p.resume_policy "auto" ≡ "fresh_only")
    × (policy_text p.fallback_backend "none" ≢ "none")
    × (is_positive p.max_fresh_failures_before_fallback ≡ true)

pub has_fresh_budget-elim : (p : ExecutionPolicy) → has_fresh_budget p ≡ true → FreshBudget p
unfolding has_fresh_budget
has_fresh_budget-elim p h = ground (
  arith,
  str_eq_iff (policy_text p.capture_backend "browsertrix") "browsertrix",
  str_eq_iff (policy_text p.resume_policy "auto") "fresh_only",
  str_eq_iff (policy_text p.fallback_backend "none") "none",
)

has_fresh_budget-intro : (p : ExecutionPolicy) → FreshBudget p → has_fresh_budget p ≡ true
unfolding has_fresh_budget
has_fresh_budget-intro p h = ground (
  arith,
  str_eq_iff (policy_text p.capture_backend "browsertrix") "browsertrix",
  str_eq_iff (policy_text p.resume_policy "auto") "fresh_only",
  str_eq_iff (policy_text p.fallback_backend "none") "none",
)

-- What the worker reads of a stored text is the text that was stored.
stored-policy_text :
    (s d : String) → IsStable (normalize s) → policy_text (or_text (normalize s) d) d ≡ normalize s
stored-policy_text s d h = ground (arith, h.0, h.1, str_eq_iff (normalize s) "")

fresh_only-IsStable : IsStable "fresh_only"
unfolding normalize
fresh_only-IsStable = (ne_empty _ refl, refl)

auto-ne-fresh_only : normalize "auto" ≢ "fresh_only"
unfolding normalize
auto-ne-fresh_only e = cc ((str_eq_iff (normalize "auto") "fresh_only").1 e)

-- A policy text that is read as `fresh_only` is stored as that.
resume-normalize : (s : String) → policy_text s "auto" ≡ "fresh_only" → normalize s ≡ "fresh_only"
resume-normalize s h = ground (arith, h, auto-ne-fresh_only, str_eq_iff s "")

module _ (p : ExecutionPolicy) (v : HasValidBackends p) where
  pub reload-has_fresh_budget : has_fresh_budget p ≡ true → has_fresh_budget (reload p) ≡ true
  unfolding Policy.to_dict Policy.from_dict
  reload-has_fresh_budget h =
      let (c, r, f, m) = has_fresh_budget-elim p h in
      let ce = policy_text-normalize p.capture_backend "browsertrix" (capture-ne_empty p v) in
      let fe = policy_text-normalize p.fallback_backend "none" (fallback-ne_empty p v) in
      let re = resume-normalize p.resume_policy r in
      has_fresh_budget-intro (reload p) (
        stored-policy_text p.capture_backend "browsertrix" (capture-IsStable p v) ∙ sym ce ∙ c,
        stored-policy_text p.resume_policy "auto" (rw re fresh_only-IsStable) ∙ re,
        (λ e.
            f (
              fe ∙ sym (stored-policy_text p.fallback_backend "none" (fallback-IsStable p v)) ∙ e)),
        m,
      )

  pub limit-reload :
      (reload p).max_fresh_failures_before_fallback ≡ p.max_fresh_failures_before_fallback
  unfolding Policy.to_dict Policy.from_dict
  limit-reload = refl

  -- A fallback that is not `none` is one of the two WARC backends.
  pub fallback_set-cases :
      policy_text p.fallback_backend "none" ≢ "none"
      → (policy_text p.fallback_backend "none" ≡ "http_warc")
        ⊎ (policy_text p.fallback_backend "none" ≡ "playwright_warc")
  fallback_set-cases ne =
      let e = policy_text-normalize p.fallback_backend "none" (fallback-ne_empty p v) in
      elim (fallback-cases p v) [
        | inl n ↦ absurd (ne (e ∙ n))
        | inr (inl h) ↦ inl (e ∙ h)
        | inr (inr w) ↦ inr (e ∙ w)
      ]

-- A policy that captures with a WARC backend, stored and read back, is in its fallback phase.
abbrev pub InFallback : ExecutionPolicy → Type 0
InFallback p =
    (str_mem (normalize p.capture_backend) valid_capture_backends ≡ true)
    × (has_fresh_budget (reload p) ≡ false)
    × (is_fallback_backend (reload p) ≡ true)

pub InFallback-http : (p : ExecutionPolicy) → p.capture_backend ≡ "http_warc" → InFallback p
unfolding has_fresh_budget is_fallback_backend Policy.to_dict Policy.from_dict normalize
InFallback-http p e = rw e (refl, refl, refl)

pub InFallback-playwright :
    (p : ExecutionPolicy) → p.capture_backend ≡ "playwright_warc" → InFallback p
unfolding has_fresh_budget is_fallback_backend Policy.to_dict Policy.from_dict normalize
InFallback-playwright p e = rw e (refl, refl, refl)
