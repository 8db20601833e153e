-- ===== src/Editions.antt =====
-- src/ha_backend/annual_editions.py: the edition of a source and year, and its shards.
pub mod Attach
pub mod Salvage
pub mod AttachLaws
pub mod Report
pub mod Status
pub mod Urls
pub mod Seeds
pub mod Counts
pub mod Again
pub mod Shards
pub mod Plan
pub mod Planned
pub mod Replan
pub mod Legacy
pub mod Repeat
use healtharchive.Base.{
  ℕ, String, Bool, true, false, ◌&&◌, ◌||◌, not, Option, none, some, List, [], ◌∷◌, str_mem, str_eq,
  if◌then◌else◌,
}
use healtharchive.Base.Text.{strip, lower}

-- The value of a key that may hold a number or a text. A text comes with what int() makes of it.
pub data YearValue : Type 0 where
  number : ℕ → YearValue
  text : String → Option ℕ → YearValue

-- The keys of a job's configuration that are read. A key that is there may hold None.
pub record ShardConfig : Type 0 where
  pub campaign_kind : Option String
  pub campaign_year : Option YearValue
  pub edition_id : Option ℕ
  pub campaign_shard_key : Option (Option String)
  pub campaign_shard_kind : Option (Option String)
  pub capture_backend : String
  pub zimit_passthrough_args : List String
  pub seeds : List String

pub record ArchiveJob : Type 0 where
  pub id : ℕ
  pub source_id : Option ℕ
  pub edition_id : Option ℕ
  pub name : String
  pub status : String
  pub config : ShardConfig
  pub shard_key : Option String
  pub shard_kind : Option String
  pub acceptance_state : Option String
  pub pages_failed : ℕ
  pub created_at : ℕ
  pub coverage_report_path : Option String

pub record Snapshot : Type 0 where
  pub id : ℕ
  pub url : String
  pub job_id : ℕ
  pub capture_backend : Option String
  pub capture_fidelity : Option String

pub record CoverageSummary : Type 0 where
  pub fidelity_counts : List (String × ℕ)
  pub exclusion_rules : List String
  pub standard : String

-- `updated_at` is the time of the last update of the row, none where it was only inserted; the columns
-- created_at and accepted_at, which nothing here writes, are left out.
pub record AnnualEdition : Type 0 where
  pub id : ℕ
  pub source_id : ℕ
  pub year : ℕ
  pub status : String
  pub search_ready : Bool
  pub research_ready : Bool
  pub intended_url_count : ℕ
  pub captured_url_count : ℕ
  pub failed_url_count : ℕ
  pub missing_url_count : ℕ
  pub excluded_url_count : ℕ
  pub fallback_url_count : ℕ
  pub shard_count : ℕ
  pub indexed_shard_count : ℕ
  pub needs_review_shard_count : ℕ
  pub backend_counts : Option (List (String × ℕ))
  pub coverage_summary : Option CoverageSummary
  pub target_ledger_path : Option String
  pub capture_manifest_path : Option String
  pub coverage_report_json_path : Option String
  pub coverage_report_md_path : Option String
  pub generated_at : Option ℕ
  pub updated_at : Option ℕ

abbrev pub blocking_job_statuses : List String
blocking_job_statuses =
    "queued" ∷ "retryable" ∷ "running" ∷ "completed" ∷ "indexing" ∷ "index_failed" ∷ []

abbrev pub review_job_statuses : List String
review_job_statuses = "failed" ∷ "index_failed" ∷ []

abbrev pub accepted_states : List String
accepted_states = "accepted" ∷ "accepted_gap" ∷ "excluded" ∷ []

-- The truth of an optional text: there and not empty.
abbrev pub is_text : Option String → Bool
is_text none = false
is_text (some s) = not (str_eq s "")

-- a or b, for optional texts
abbrev pub or_text : Option String → Option String → Option String
or_text a b = if is_text a then a else b

unfoldable pub capture_backend_for_job : ArchiveJob → String
capture_backend_for_job j =
    let backend = lower (strip j.config.capture_backend) in
    if str_eq backend "" then "browsertrix" else backend

unfoldable pub capture_fidelity_for_backend : String → String
capture_fidelity_for_backend backend =
    if str_eq backend "browsertrix"
    then "high"
    else if str_mem backend ("playwright_warc" ∷ "http_warc" ∷ [])
    then "fallback"
    else "unknown"

unfoldable pub job_campaign_year : ArchiveJob → Option ℕ
job_campaign_year j = elim j.config.campaign_year [
  | none ↦ none
  | some value ↦ elim value [ number n ↦ some n | text s as_number ↦ as_number ]
]
