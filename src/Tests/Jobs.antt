-- ===== src/Tests/Jobs.antt =====
-- run_persistent_job at sample rows.
use healtharchive.Base.{◌≡◌, refl, some, ◌==◌, if◌then◌else◌}
use healtharchive.Base.Text.{strip}
use healtharchive.Contract.Policy
use healtharchive.Contract.Job
use healtharchive.Base.Int.{pos, negsuc}
use healtharchive.Jobs.{ArchiveJob, get_job}
use healtharchive.Jobs.Run.{
  run_row, run_persistent_job, mark_running, pin_primary_backend, stamp_finished, record_outcome,
  sync_stats,
}
use healtharchive.Jobs.Laws.{Ended, run_row-Ended}
use healtharchive.Jobs.Table.{run_persistent_job-effect}
use healtharchive.Tests.Samples.{annual_job, two_jobs, world_with}

run_row-Ended_example :
    Ended
      (run_row (world_with (negsuc 8)) annual_job).0
      (run_row (world_with (negsuc 8)) annual_job).1
      0
run_row-Ended_example = run_row-Ended (world_with (negsuc 8)) annual_job

run_persistent_job-effect_example :
    (j : ArchiveJob) × (k : ArchiveJob) × (get_job 7 two_jobs ≡ some j)
    × Ended k (pos 0) j.retry_count
    × (get_job 8 (run_persistent_job (world_with (pos 0)) 7 two_jobs).0
        ≡ (if 7 == 8 then some k else get_job 8 two_jobs))
run_persistent_job-effect_example =
    run_persistent_job-effect (world_with (pos 0)) 7 8 two_jobs (pos 0) (
      unfold run_persistent_job get_job run_row mark_running pin_primary_backend stamp_finished
        record_outcome sync_stats Job.from_dict Policy.from_dict Job.to_dict strip in
      refl)
