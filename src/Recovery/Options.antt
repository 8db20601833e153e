-- ===== src/Recovery/Options.antt =====
-- scripts/vps-crawl-auto-recover.py: what the registry and a job's name say of a job.
use healtharchive.Base.{
  ℕ, String, Bool, ◌&&◌, ◌||◌, not, Option, none, some, List, [], ◌∷◌, leb, str_eq, is_some,
  or_else, if◌then◌else◌,
}
use healtharchive.Base.Text.{concat, starts_with}
use healtharchive.Contract.Policy.{PolicyDict, normalize}
use healtharchive.Recovery.{RecoveryJob, RecoveryProfile}

-- The profiles and the execution policies of the registry, in its order; the year that the expression
-- _ANNUAL_JOB_SUFFIX_RE finds in a text; the last part of a path.
pub record Registry : Type 0 where
  pub profiles : List (String × RecoveryProfile)
  pub policies : List (String × PolicyDict)
  pub suffix_year : String → Option ℕ
  pub file_name : String → String

unfoldable pub lookup : {A : Type 0} → String → List (String × A) → Option A
lookup key [] = none
lookup key ((k, a) ∷ rest) = if str_eq k key then some a else lookup key rest

-- The first candidate that the name of the job is or begins with.
unfoldable pub source_of_name : String → List (String × RecoveryProfile) → String
source_of_name name [] = ""
source_of_name name ((code, p) ∷ rest) =
    if starts_with name (concat code "-") || str_eq name code
    then code
    else source_of_name name rest

unfoldable pub infer_source_code : Registry → RecoveryJob → String
infer_source_code g j =
    let code : String = normalize (or_else j.source_code "") in
    if not (str_eq code "") then code else source_of_name (normalize j.name) g.profiles

abbrev pub as_year : Option ℕ → Option ℕ
as_year none = none
as_year (some y) = if leb 1970 y then some y else none

abbrev pub first_year : Option ℕ → Option ℕ → Option ℕ
first_year a b = elim a [ none ↦ b | some y ↦ some y ]

unfoldable pub infer_annual_campaign_year : Registry → RecoveryJob → Option ℕ
infer_annual_campaign_year g j = first_year (as_year j.campaign_year) (
    first_year (as_year (g.suffix_year j.name)) (
      first_year (as_year (g.suffix_year j.output_dir)) (
        if str_eq j.output_dir ""
        then none
        else as_year (g.suffix_year (g.file_name j.output_dir)))))

unfoldable pub is_annual : Registry → RecoveryJob → Bool
is_annual g j =
    str_eq (normalize (or_else j.campaign_kind "")) "annual"
    || is_some (infer_annual_campaign_year g j)

-- What a job is recovered towards: whether it is annual, and what the registry has for its source.
pub record Target : Type 0 where
  pub annual : Bool
  pub profile : Option RecoveryProfile
  pub policy : Option PolicyDict

unfoldable pub target_of : Registry → RecoveryJob → Target
target_of g j =
    let source = infer_source_code g j in
    let annual = is_annual g j in
    record {
      annual = annual;
      profile = if annual then lookup source g.profiles else none;
      policy = if annual && not (str_eq source "") then lookup source g.policies else none;
    }
