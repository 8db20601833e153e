-- ===== src/Contract/Policy.antt =====
-- src/ha_backend/archive_contract.py: ArchiveExecutionPolicy, its JSON form and its validation.
use healtharchive.Base.{
  String, Bool, false, ◌&&◌, not, Option, none, some, List, [], ◌∷◌, str_eq, str_mem, or_else,
  if◌then◌else◌,
}
use healtharchive.Base.Text.{lower, strip}
use healtharchive.Base.Int.{ℤ, pos, is_negative, is_positive}

pub record ExecutionPolicy : Type 0 where
  pub capture_backend : String
  pub resume_policy : String
  pub fallback_backend : String
  pub max_fresh_failures_before_fallback : ℤ
  pub auto_reset_poisoned_state : Bool
  pub max_temp_dirs_before_reset : Option ℤ
  pub primary_backend : Option String
  pub last_promoted_from_backend : Option String
  pub last_promotion_reason : Option String

-- The stored object: a key that is absent is `none`.
pub record PolicyDict : Type 0 where
  pub capture_backend : Option String
  pub resume_policy : Option String
  pub fallback_backend : Option String
  pub max_fresh_failures_before_fallback : Option ℤ
  pub auto_reset_poisoned_state : Option Bool
  pub max_temp_dirs_before_reset : Option ℤ
  pub primary_backend : Option String
  pub last_promoted_from_backend : Option String
  pub last_promotion_reason : Option String

-- `{}`
abbrev pub no_policy : PolicyDict
no_policy = record {
  capture_backend = none;
  resume_policy = none;
  fallback_backend = none;
  max_fresh_failures_before_fallback = none;
  auto_reset_poisoned_state = none;
  max_temp_dirs_before_reset = none;
  primary_backend = none;
  last_promoted_from_backend = none;
  last_promotion_reason = none;
}

-- str(s).strip().lower()
unfoldable pub normalize : String → String
unfolding lower strip
normalize s = lower (strip s)

-- `s or d`
abbrev pub or_text : String → String → String
or_text s d = if str_eq s "" then d else s

-- `o or ""`
abbrev pub text_of : Option String → String
text_of o = or_else o ""

-- `if o: data[key] = f(o)`
abbrev pub set_if_truthy : (String → String) → Option String → Option String
set_if_truthy f none = none
set_if_truthy f (some s) = if str_eq s "" then none else some (f s)

unfoldable pub to_dict : ExecutionPolicy → PolicyDict
to_dict p = record {
  capture_backend = some (or_text (normalize p.capture_backend) "browsertrix");
  resume_policy = some (or_text (normalize p.resume_policy) "auto");
  fallback_backend = some (or_text (normalize p.fallback_backend) "none");
  max_fresh_failures_before_fallback = some p.max_fresh_failures_before_fallback;
  auto_reset_poisoned_state = some p.auto_reset_poisoned_state;
  max_temp_dirs_before_reset = p.max_temp_dirs_before_reset;
  primary_backend = set_if_truthy normalize p.primary_backend;
  last_promoted_from_backend = set_if_truthy normalize p.last_promoted_from_backend;
  last_promotion_reason = set_if_truthy strip p.last_promotion_reason;
}

unfoldable pub from_dict : PolicyDict → ExecutionPolicy
from_dict d = record {
  capture_backend = or_else d.capture_backend "browsertrix";
  resume_policy = or_else d.resume_policy "auto";
  fallback_backend = or_else d.fallback_backend "none";
  max_fresh_failures_before_fallback = or_else d.max_fresh_failures_before_fallback (pos 0);
  auto_reset_poisoned_state = or_else d.auto_reset_poisoned_state false;
  max_temp_dirs_before_reset = d.max_temp_dirs_before_reset;
  primary_backend = d.primary_backend;
  last_promoted_from_backend = d.last_promoted_from_backend;
  last_promotion_reason = d.last_promotion_reason;
}

abbrev pub valid_capture_backends : List String
valid_capture_backends = "browsertrix" ∷ "http_warc" ∷ "playwright_warc" ∷ []

abbrev pub valid_resume_policies : List String
valid_resume_policies = "auto" ∷ "fresh_only" ∷ []

abbrev pub valid_fallback_backends : List String
valid_fallback_backends = "none" ∷ "http_warc" ∷ "playwright_warc" ∷ []

-- The field that a ValueError names.
pub data PolicyError : Type 0 where
  capture_backend resume_policy fallback_backend primary_backend : PolicyError
  last_promoted_from_backend max_fresh_failures max_temp_dirs : PolicyError

-- `backend and backend not in _VALID_CAPTURE_BACKENDS`
abbrev pub is_bad_backend : Option String → Bool
is_bad_backend o =
    let backend : String = normalize (text_of o) in
    not (str_eq backend "") && not (str_mem backend valid_capture_backends)

-- `limit is not None and int(limit) <= 0`
abbrev pub is_bad_limit : Option ℤ → Bool
is_bad_limit none = false
is_bad_limit (some z) = not (is_positive z)

-- `some e` is the ValueError that is raised.
unfoldable pub validate_execution_policy : ExecutionPolicy → Option PolicyError
validate_execution_policy p =
    if not (str_mem (normalize p.capture_backend) valid_capture_backends)
    then some PolicyError.capture_backend
    else if not (str_mem (normalize p.resume_policy) valid_resume_policies)
    then some PolicyError.resume_policy
    else if not (str_mem (normalize p.fallback_backend) valid_fallback_backends)
    then some PolicyError.fallback_backend
    else if is_bad_backend p.primary_backend
    then some PolicyError.primary_backend
    else if is_bad_backend p.last_promoted_from_backend
    then some PolicyError.last_promoted_from_backend
    else if is_negative p.max_fresh_failures_before_fallback
    then some PolicyError.max_fresh_failures
    else if is_bad_limit p.max_temp_dirs_before_reset
    then some PolicyError.max_temp_dirs
    else none
