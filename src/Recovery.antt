-- ===== src/Recovery.antt =====
-- scripts/vps-crawl-auto-recover.py: the watchdog that recovers stalled crawls.
pub mod State
pub mod Records
pub mod Circuit
pub mod Options
pub mod Ensure
pub mod EnsureLaws
use healtharchive.Base.{ℕ, String, Option}
use healtharchive.Base.Int.{ℤ}
use healtharchive.Contract.Options.{OptionsDict}
use healtharchive.Contract.Policy.{PolicyDict}

-- The columns and configuration keys of a job that the watchdog reads and writes.
pub record RecoveryJob : Type 0 where
  pub source_code : Option String
  pub name : String
  pub output_dir : String
  pub campaign_kind : Option String
  pub campaign_year : Option ℕ
  pub campaign_date : Option String
  pub campaign_date_utc : Option String
  pub scheduler_version : Option String
  pub tool_options : OptionsDict
  pub execution_policy : PolicyDict

-- The annual profile of a source.
pub record RecoveryProfile : Type 0 where
  pub initial_workers : ℤ
  pub stall_timeout_minutes : ℤ
  pub error_threshold_timeout : ℤ
  pub error_threshold_http : ℤ
  pub backoff_delay_minutes : ℤ
  pub max_container_restarts : ℤ
