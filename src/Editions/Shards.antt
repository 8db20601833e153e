-- ===== src/Editions/Shards.antt =====
-- src/ha_backend/annual_editions.py: the keys of the shards of an edition, and which it has.
use healtharchive.Base.{
  ℕ, String, Bool, false, ◌&&◌, ◌||◌, not, Option, none, some, List, [], ◌∷◌, opt_is, str_mem,
  or_else, is_some, if◌then◌else◌,
}
use healtharchive.Base.Text.{concat, lower, show}
use healtharchive.Jobs.Log.{contains}
use healtharchive.Editions.{ShardConfig, ArchiveJob, AnnualEdition, is_text}
use healtharchive.Editions.Attach.{is_edition}

pub data Action : Type 0 where
  create skip error : Action

pub record ShardPlanItem : Type 0 where
  pub source_code : String
  pub year : ℕ
  pub shard_key : String
  pub shard_kind : String
  pub seeds : List String
  pub action : Action
  pub reason : Option String
  pub job_id : Option ℕ

-- The seeds of a source in the registry, the configuration that a new job starts with, the ids that the
-- database gives, and the seeds that the ledger of an edition calls missing, where it can be read.
pub record Outside : Type 0 where
  pub default_seeds : String → Option (List String)
  pub job_config : String → ShardConfig
  pub new_job_id : List ArchiveJob → ℕ
  pub new_edition_id : List AnnualEdition → ℕ
  pub missing_seed_urls : AnnualEdition → Option (List String)
  pub now : ℕ

-- The three bases that there are consist of letters, digits and inner dashes, so that the
-- substitution of other characters changes nothing.
unfoldable pub seed_shard_key : String → ℕ → String
seed_shard_key seed index =
    if contains (lower seed) "/en/" || contains (lower seed) "/e/"
    then "lang-en"
    else if contains (lower seed) "/fr/" || contains (lower seed) "/f/"
    then "lang-fr"
    else concat "seed-" (show index)

-- str(kind or "").replace("-", "_") == "legacy_full_site"
unfoldable pub is_legacy : ArchiveJob → Bool
is_legacy j = elim j.shard_kind [
  | none ↦ false
  | some kind ↦
      str_mem kind
        ("legacy_full_site" ∷ "legacy-full-site" ∷ "legacy_full-site" ∷ "legacy-full_site" ∷ [])
]

-- `existing[key]`: the last job of the edition that has the key.
unfoldable pub existing_job : ℕ → String → List ArchiveJob → Option ArchiveJob
existing_job edition_id key [] = none
existing_job edition_id key (j ∷ jobs) = elim (existing_job edition_id key jobs) [
  | some later ↦ some later
  | none ↦
      if is_edition j.edition_id edition_id && (is_text j.shard_key && opt_is j.shard_key key)
      then some j
      else none
]

-- The values of `existing`: of the jobs with one key the last.
unfoldable pub existing_jobs : ℕ → List ArchiveJob → List ArchiveJob
existing_jobs edition_id [] = []
existing_jobs edition_id (j ∷ jobs) =
    let rest = existing_jobs edition_id jobs in
    if is_edition j.edition_id edition_id
      && (is_text j.shard_key
          && not (is_some (existing_job edition_id (or_else j.shard_key "") jobs)))
    then j ∷ rest
    else rest
