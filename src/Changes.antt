-- ===== src/Changes.antt =====
-- src/ha_backend/changes.py and diffing.py: the change events between captures of one page.
pub mod Diff
pub mod Pair
pub mod Backfill
pub mod Since
pub mod Latest
pub mod Resume
pub mod Distinct
pub mod Interrupt
pub mod Resumed
pub mod Dry
pub mod Once
pub mod Complete
use healtharchive.Base.{ℕ, String, Bool, Option, List}
use healtharchive.Base.Int.{ℤ}

-- The columns of a snapshot that are read. Times are seconds.
pub record Snapshot : Type 0 where
  pub id : ℕ
  pub job_id : Option ℕ
  pub source_id : Option ℕ
  pub url : String
  pub normalized_url_group : Option String
  pub capture_timestamp : ℕ
  pub mime_type : Option String
  pub content_hash : Option String

pub data ChangeType : Type 0 where
  updated unchanged new_page error : ChangeType

-- A ratio of two counts, for a float of the source.
pub record Ratio : Type 0 where
  pub part : ℕ
  pub whole : ℕ

-- A row of snapshot_changes; `computed_at`, a clock reading, is left out.
pub record SnapshotChange : Type 0 where
  pub source_id : Option ℕ
  pub normalized_url_group : Option String
  pub from_snapshot_id : Option ℕ
  pub to_snapshot_id : ℕ
  pub from_job_id : Option ℕ
  pub to_job_id : Option ℕ
  pub from_capture_timestamp : Option ℕ
  pub to_capture_timestamp : ℕ
  pub change_type : ChangeType
  pub summary : String
  pub diff_format : Option String
  pub diff_html : Option String
  pub diff_truncated : Bool
  pub added_sections : Option ℕ
  pub removed_sections : Option ℕ
  pub changed_sections : Option ℕ
  pub added_lines : Option ℕ
  pub removed_lines : Option ℕ
  pub change_ratio : Option Ratio
  pub high_noise : Bool
  pub diff_version : Option String
  pub normalization_version : Option String
  pub computed_by : String
  pub error_message : Option String
