-- ===== src/Worker/Guards.antt =====
-- src/ha_backend/worker/main.py: _check_disk_headroom and _tier_annual_job_if_needed.
use healtharchive.Base.{
  ℕ, String, ◌-◌, ◌*◌, ◌/◌, Bool, true, false, not, Option, none, some, ltb, ◌==◌, opt_is, str_eq,
  or_else, if◌then◌else◌,
}
use healtharchive.Base.Int.{ℤ, is_zero}
use healtharchive.Contract.Job.{no_config}
use healtharchive.Jobs.{ArchiveJob}

abbrev pub disk_headroom_threshold_percent : ℕ
disk_headroom_threshold_percent = 85

-- The total and the available bytes of statvfs; `none` is an OSError. The available bytes are at
-- most the total, and the float quotient that the source truncates is modelled by integer division.
unfoldable pub check_disk_headroom : Option (ℕ × ℕ) → Bool × ℕ
check_disk_headroom none = (true, 0)
check_disk_headroom (some (total, free)) =
    if total == 0
    then (true, 0)
    else (let usage : ℕ = (100 * (total - free)) / total in
        (ltb usage disk_headroom_threshold_percent, usage))

-- A run of the tiering script: the timeout or another exception, or its return code.
pub data TieringRun : Type 0 where
  timed_out failed_to_start : TieringRun
  exited : ℤ → TieringRun

-- What is observed before and after the script runs. `device` is the source that df prints.
pub record TierProbe : Type 0 where
  pub exists : Bool
  pub is_mountpoint : Bool
  pub run : TieringRun
  pub device : Option String

-- _is_on_root_device: an unknown device counts as the root device.
unfoldable pub is_on_root_device : Option String → Bool
is_on_root_device none = true
is_on_root_device (some d) = str_eq d "/dev/sda1"

-- How the guard ends: no tiering, tiering that was verified, or an exception.
pub data Tiering : Type 0 where
  skipped tiered raised : Tiering

-- `not campaign_year`
abbrev pub has_year : Option ℕ → Bool
has_year none = false
has_year (some y) = not (y == 0)

unfoldable pub tier_annual_job_if_needed : TierProbe → ArchiveJob → Tiering
unfolding is_on_root_device
tier_annual_job_if_needed p j =
    let config = or_else j.config no_config in
    if not (opt_is config.campaign_kind "annual")
    then skipped
    else if not p.exists
    then skipped
    else if p.is_mountpoint
    then skipped
    else if not (has_year config.campaign_year)
    then skipped
    else elim p.run [
      | timed_out ↦ raised
      | failed_to_start ↦ raised
      | exited rc ↦
          if not (is_zero rc) then raised else if is_on_root_device p.device then raised else tiered
    ]
