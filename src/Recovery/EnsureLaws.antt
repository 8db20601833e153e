-- ===== src/Recovery/EnsureLaws.antt =====
-- scripts/vps-crawl-auto-recover.py: a job that was prepared for a recovery.
use mathlib.Core.Path.{subst}
use healtharchive.Base.{
  ◌≡◌, refl, sym, ap, ◌∙◌, inl, inr, String, Bool, true, false, ◌&&◌, ◌||◌, Option, none, some,
  List, str_eq, is_some, is_none, or_else, arith, Bool-cases, if_both, if_true, if_false,
  str_eq_refl, if◌then◌else◌,
}
use healtharchive.Base.Int.{ℤ, pos, leb_ℤ, eq_ℤ}
use healtharchive.Contract.Options.{OptionsDict}
use healtharchive.Contract.Policy.{PolicyDict, normalize}
use healtharchive.Recovery.{RecoveryJob, RecoveryProfile}
use healtharchive.Recovery.Options.{
  Registry, Target, target_of, infer_source_code, is_annual, infer_annual_campaign_year,
}
use healtharchive.Recovery.Ensure.{
  switched_on, is_off, at_least, is_under, or_value, is_legacy_value, reconciled, differs_text,
  differs_number, differs_flag, is_blank, legacy_workers, legacy_stall, legacy_errors,
  legacy_backoff, desired_backend, with_restarts, with_annual_defaults, with_profile, with_policy,
  policy_step, tool_steps, ensure_for, ensure_recovery_tool_options,
}

is_off-switched_on : (o : Option Bool) → is_off (switched_on o) ≡ false
is_off-switched_on none = refl
is_off-switched_on (some true) = refl
is_off-switched_on (some false) = refl

is_under-at_least : (least : ℤ) (o : Option ℤ) → is_under least (at_least least o) ≡ false
is_under-at_least least o = elim (Bool-cases (leb_ℤ least (or_else o (pos 0)))) [
  | inl e ↦ rw (e, e) refl
  | inr e ↦ rw (e) ground arith
]

is_none-or_value {ℓ} : {A : Type ℓ} (o : Option A) (a : A) → is_none (or_value o a) ≡ false
is_none-or_value none a = refl
is_none-or_value (some b) a = refl

eq_ℤ_refl : (z : ℤ) → eq_ℤ z z ≡ true
eq_ℤ_refl z = ground arith

-- A reconciled value is there, and is reconciled.
module _ (legacy : List ℤ) (desired : ℤ) where
  is_none-reconciled : (o : Option ℤ) → is_none (reconciled legacy desired o) ≡ false
  is_none-reconciled none = refl
  is_none-reconciled (some z) = ground arith

  settled : (o : Option ℤ) → is_legacy_value legacy desired (reconciled legacy desired o) ≡ false
  settled o = elim (Bool-cases (is_legacy_value legacy desired o)) [
    | inl e ↦ rw (e, eq_ℤ_refl desired) ground arith
    | inr e ↦ rw (e) e
  ]

  or_value-reconciled :
      (o : Option ℤ) (a : ℤ)
      → or_value (reconciled legacy desired o) a ≡ reconciled legacy desired o
  or_value-reconciled none a = refl
  or_value-reconciled (some z) a = ground arith

or_false : {a b : Bool} → a ≡ false → b ≡ false → (a || b) ≡ false
or_false {a} {b} p q = ground arith

restarts_done :
    (least : ℤ) (o : OptionsDict)
    → (is_off (switched_on o.enable_monitoring)
        || (is_off (switched_on o.enable_adaptive_restart)
            || is_under least (at_least least o.max_container_restarts)))
      ≡ false
restarts_done least o = or_false (is_off-switched_on o.enable_monitoring) (
    or_false (is_off-switched_on o.enable_adaptive_restart)
      (is_under-at_least least o.max_container_restarts))

-- A value that was reconciled is there after the defaults, and is reconciled.
settled_default :
    (legacy : List ℤ) (desired a b : ℤ) (o : Option ℤ)
    → is_legacy_value legacy desired (or_value (reconciled legacy desired (or_value o a)) b) ≡ false
settled_default legacy desired a b o =
    ap (is_legacy_value legacy desired) (or_value-reconciled legacy desired (or_value o a) b)
    ∙ settled legacy desired (or_value o a)

-- The steps on options that went through them change nothing more.
tool_steps-again :
    (annual : Bool) (profile : Option RecoveryProfile) (o : OptionsDict)
    → (tool_steps annual profile (tool_steps annual profile o).0).1 ≡ false
unfolding tool_steps with_restarts with_annual_defaults with_profile
tool_steps-again true none o = or_false (restarts_done (pos 20) o) (
    or_false
      (or_false (is_none-or_value o.skip_final_build true) (
        or_false (is_none-or_value o.docker_shm_size "1g") (
          or_false (is_none-or_value o.stall_timeout_minutes (pos 60)) (
            or_false (is_none-or_value o.error_threshold_timeout (pos 50)) (
              or_false (is_none-or_value o.error_threshold_http (pos 50))
                (is_none-or_value o.backoff_delay_minutes (pos 2)))))))
      refl)
tool_steps-again true (some p) o = or_false (restarts_done p.max_container_restarts o) (
    or_false
      (or_false (is_none-or_value o.skip_final_build true) (
        or_false (is_none-or_value o.docker_shm_size "1g") (
          or_false
            (is_none-reconciled legacy_stall p.stall_timeout_minutes
              (or_value o.stall_timeout_minutes (pos 60)))
            (or_false
              (is_none-reconciled legacy_errors p.error_threshold_timeout
                (or_value o.error_threshold_timeout (pos 50)))
              (or_false
                (is_none-reconciled legacy_errors p.error_threshold_http
                  (or_value o.error_threshold_http (pos 50)))
                (is_none-reconciled legacy_backoff p.backoff_delay_minutes
                  (or_value o.backoff_delay_minutes (pos 2))))))))
      (or_false (settled legacy_workers p.initial_workers o.initial_workers) (
        or_false
          (settled_default legacy_stall p.stall_timeout_minutes (pos 60) (pos 60)
            o.stall_timeout_minutes)
          (or_false
            (settled_default legacy_errors p.error_threshold_timeout (pos 50) (pos 50)
              o.error_threshold_timeout)
            (or_false
              (settled_default legacy_errors p.error_threshold_http (pos 50) (pos 50)
                o.error_threshold_http)
              (settled_default legacy_backoff p.backoff_delay_minutes (pos 2) (pos 2)
                o.backoff_delay_minutes))))))
tool_steps-again false none o = or_false (restarts_done (pos 6) o) refl
tool_steps-again false (some p) o = or_false (restarts_done p.max_container_restarts o) (
    or_false (settled legacy_workers p.initial_workers o.initial_workers) (
      or_false (settled legacy_stall p.stall_timeout_minutes o.stall_timeout_minutes) (
        or_false (settled legacy_errors p.error_threshold_timeout o.error_threshold_timeout) (
          or_false (settled legacy_errors p.error_threshold_http o.error_threshold_http)
            (settled legacy_backoff p.backoff_delay_minutes o.backoff_delay_minutes)))))

differs_text_refl : (o : Option String) → differs_text o o ≡ false
differs_text_refl none = refl
differs_text_refl (some s) = rw (str_eq_refl s) refl

differs_number_refl : (o : Option ℤ) → differs_number o o ≡ false
differs_number_refl none = refl
differs_number_refl (some z) = rw (eq_ℤ_refl z) refl

differs_flag_refl : (o : Option Bool) → differs_flag o o ≡ false
differs_flag_refl none = refl
differs_flag_refl (some true) = refl
differs_flag_refl (some false) = refl

-- The registry's backend of the policy is no blank text.
abbrev pub NamesBackend : Option PolicyDict → Type 0
NamesBackend none = Unit
NamesBackend (some d) = str_eq (normalize (desired_backend d)) "" ≡ false

backend_kept :
    (o : Option String) (backend : String)
    → str_eq (normalize backend) "" ≡ false
    → is_blank (if is_blank o then some backend else o) ≡ false
backend_kept o backend h = elim (Bool-cases (is_blank o)) [ inl e ↦ rw (e) h | inr e ↦ rw (e) e ]

capped_kept :
    (d o : Option ℤ) → (is_some d && differs_number (if is_some d then d else o) d) ≡ false
capped_kept none o = refl
capped_kept (some z) o = rw (eq_ℤ_refl z) refl

policy_step-again :
    (policy : Option PolicyDict) (p : PolicyDict)
    → NamesBackend policy
    → (policy_step policy (policy_step policy p).0).1 ≡ false
unfolding with_policy
policy_step-again none p h = refl
policy_step-again (some d) p h = or_false (backend_kept p.capture_backend (desired_backend d) h) (
    or_false (differs_text_refl d.resume_policy) (
      or_false (differs_text_refl d.fallback_backend) (
        or_false (differs_number_refl d.max_fresh_failures_before_fallback) (
          or_false (differs_flag_refl d.auto_reset_poisoned_state)
            (capped_kept d.max_temp_dirs_before_reset p.max_temp_dirs_before_reset)))))

module _ (t : Target) (j : RecoveryJob) (h : NamesBackend t.policy) where
  abbrev tool : OptionsDict × Bool
  tool = tool_steps t.annual t.profile j.tool_options

  abbrev policy : PolicyDict × Bool
  policy = policy_step t.policy j.execution_policy

  abbrev prepared : RecoveryJob
  prepared = record j { tool_options = tool.0; execution_policy = policy.0 }

  -- The prepared job needs nothing more.
  prepared_again : ensure_for t prepared ≡ (prepared, false)
  unfolding ensure_for
  prepared_again =
      if_false ((tool_steps t.annual t.profile tool.0).1 || (policy_step t.policy policy.0).1) _ _ (
        or_false (tool_steps-again t.annual t.profile j.tool_options)
          (policy_step-again t.policy j.execution_policy h))

  ensure_for-again : ensure_for t (ensure_for t j).0 ≡ ((ensure_for t j).0, false)
  unfolding ensure_for
  ensure_for-again =
      let again : RecoveryJob × Bool → Type 0 = λ r. ensure_for t r.0 ≡ (r.0, false) in
      elim (Bool-cases (tool.1 || policy.1)) [
        | inl e ↦ subst again (sym (if_true (tool.1 || policy.1) _ _ e)) prepared_again
        | inr e ↦
            let kept : ensure_for t j ≡ (j, false) = if_false (tool.1 || policy.1) _ _ e in
            subst again (sym kept) kept
      ]

-- What a job is recovered towards does not change by preparing it.
target_of-ensure_for :
    (g : Registry) (t : Target) (j : RecoveryJob) → target_of g (ensure_for t j).0 ≡ target_of g j
unfolding ensure_for target_of infer_source_code is_annual infer_annual_campaign_year
target_of-ensure_for g t j =
    if_both (λ (r : RecoveryJob × Bool). target_of g r.0 ≡ target_of g j)
      ((tool_steps t.annual t.profile j.tool_options).1
        || (policy_step t.policy j.execution_policy).1)
      _ _ refl refl

-- A job that was prepared for a recovery is left as it is, and said to be unchanged, when it is
-- prepared again, where the registry names a capture backend for its source or has no policy for it.
pub ensure_recovery_tool_options-again :
    (g : Registry) (j : RecoveryJob)
    → NamesBackend (target_of g j).policy
    → ensure_recovery_tool_options g (ensure_recovery_tool_options g j).0
      ≡ ((ensure_recovery_tool_options g j).0, false)
unfolding ensure_recovery_tool_options
ensure_recovery_tool_options-again g j h =
    let t = target_of g j in
    ap (λ x. ensure_for x (ensure_for t j).0) (target_of-ensure_for g t j) ∙ ensure_for-again t j h
