-- ===== src/Worker/Recovery.antt =====
-- src/ha_backend/worker/main.py: _auto_recover_stale_running_jobs.
use healtharchive.Base.{
  ℕ, ◌+◌, ◌*◌, Bool, true, false, ◌&&◌, Option, none, some, [], ◌∷◌, ltb, str_eq, if◌then◌else◌,
}
use healtharchive.Jobs.{ArchiveJob, Jobs}

abbrev pub stale_running_recovery_older_than : ℕ
stale_running_recovery_older_than = 10 * 60

abbrev pub stale_running_require_no_progress : ℕ
stale_running_require_no_progress = 300

-- What trying the job's lock does: it is free, another process holds it, or an OSError is raised.
pub data LockProbe : Type 0 where
  free held os_error : LockProbe

-- `started_at IS NULL OR started_at < now - 10 minutes`; times are later than the first 10 minutes
-- of the epoch, so the sum says the same as the difference.
abbrev pub started_before_cutoff : ℕ → Option ℕ → Bool
started_before_cutoff now none = true
started_before_cutoff now (some t) = ltb (t + stale_running_recovery_older_than) now

abbrev pub made_recent_progress : Option ℕ → Bool
made_recent_progress none = false
made_recent_progress (some age) = ltb age stale_running_require_no_progress

abbrev pub is_free : LockProbe → Bool
is_free free = true
is_free held = false
is_free os_error = false

-- `probe` tries the lock of a job, `progress_age` reads the age of the last progress in its log.
module _ (now : ℕ) (probe : ArchiveJob → LockProbe) (progress_age : ArchiveJob → Option ℕ) where
  unfoldable pub is_stale : ArchiveJob → Bool
  is_stale j =
      str_eq j.status "running"
      && started_before_cutoff now j.started_at
      && is_free (probe j)
      && (if made_recent_progress (progress_age j) then false else true)

  unfoldable pub recover_job : ArchiveJob → ArchiveJob
  recover_job j =
      if is_stale j
      then record j {
        status = "retryable";
        crawler_stage = some "recovered_stale_running";
        updated_at = now;
      }
      else j

  -- The rows are independent, so the order of the query shows in the log lines alone.
  unfoldable pub recover_stale_running_jobs : Jobs → Jobs × ℕ
  recover_stale_running_jobs [] = ([], 0)
  recover_stale_running_jobs (j ∷ js) =
      let (js', recovered) = recover_stale_running_jobs js in
      (recover_job j ∷ js', if is_stale j then recovered + 1 else recovered)
