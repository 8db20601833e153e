-- ===== src/Worker/Process.antt =====
-- src/ha_backend/worker/main.py: _process_single_job and run_worker_loop.
use healtharchive.Base.{
  ℕ, Bool, true, false, ◌||◌, not, Option, none, some, List, [], ◌∷◌, str_eq, opt_is, if◌then◌else◌,
}
use healtharchive.Base.Int.{ℤ, is_zero}
use healtharchive.Jobs.{ArchiveJob, Jobs, get_job, put_job}
use healtharchive.Jobs.Run.{
  World, exit_code, already_running, no_such_job, not_runnable, no_seeds, run_persistent_job,
}
use healtharchive.Worker.Recovery.{LockProbe, recover_stale_running_jobs}
use healtharchive.Worker.Failure.{apply_failure_policy}
use healtharchive.Worker.Guards.{
  TierProbe, skipped, tiered, raised, check_disk_headroom, tier_annual_job_if_needed,
}
use healtharchive.Worker.Selection.{select_next_crawl_job, select_next_index_job}

-- All that one iteration observes or calls outside the table of jobs. `index_job` stands for the
-- indexing pipeline, which answers a return code and changes the table.
pub record Iteration : Type 0 where
  pub now : ℕ
  pub probe : ArchiveJob → LockProbe
  pub progress_age : ArchiveJob → Option ℕ
  pub index_job : ℕ → Jobs → ℤ × Jobs
  pub disk : Option (ℕ × ℕ)
  pub tier : TierProbe
  pub world : World
  pub resumed : ℕ

-- How an iteration ends: its answer whether a job was processed, or an exception.
pub data Verdict : Type 0 where
  processed idle crashed : Verdict

-- JobAlreadyRunningError: the row is brought in line with the process that holds the lock.
unfoldable pub sync_running : ℕ → ArchiveJob → ArchiveJob
sync_running now j = if str_eq j.status "running" then j else record j {
  status = "running";
  started_at = elim j.started_at [ none ↦ some now | some t ↦ some t ];
  finished_at = none;
  updated_at = now;
}

abbrev update_at : ℕ → (ArchiveJob → ArchiveJob) → Jobs → Jobs
update_at i f js = elim (get_job i js) [ none ↦ js | some j ↦ put_job (f j) js ]

-- What becomes of the row after a crawl: `none` where indexing follows.
unfoldable pub after_crawl : Iteration → ℤ → ArchiveJob → Option ArchiveJob
after_crawl it rc j =
    if opt_is j.crawler_status "infra_error"
    then some (
        if str_eq j.status "retryable"
        then j
        else record j { status = "retryable"; updated_at = it.resumed })
    else if opt_is j.crawler_status "infra_error_config"
    then some j
    else if not (is_zero rc) || str_eq j.status "failed"
    then some (apply_failure_policy it.world.profiles it.resumed j)
    else none

-- The third session and the indexing phase.
unfoldable pub finish_crawl : Iteration → ℤ → ℕ → Jobs → Jobs × Verdict
finish_crawl it rc i js = elim (get_job i js) [
  | none ↦ (js, processed)
  | some j ↦ elim (after_crawl it rc j) [
    | some j' ↦ (put_job j' js, processed)
    | none ↦ ((it.index_job i js).1, processed)
  ]
]

-- The crawl phase of the selected job.
unfoldable pub crawl_selected : Iteration → ArchiveJob → Jobs → Jobs × Verdict
crawl_selected it j js =
    let (js', result) = run_persistent_job it.world j.id js in
    elim result [
      | exit_code rc ↦ finish_crawl it rc j.id js'
      | already_running ↦ (update_at j.id (sync_running it.resumed) js', processed)
      | no_such_job ↦ (js', crashed)
      | not_runnable ↦ (js', crashed)
      | no_seeds ↦ (js', crashed)
    ]

-- The part below the index reconciliation: disk headroom, selection, tiering, crawl.
unfoldable pub crawl_phase : Iteration → Jobs → Jobs × Verdict
crawl_phase it js =
    if not (check_disk_headroom it.disk).0
    then (js, idle)
    else elim (select_next_crawl_job it.now js) [
      | none ↦ (js, idle)
      | some j ↦ elim (tier_annual_job_if_needed it.tier j) [
        | raised ↦ (js, crashed)
        | skipped ↦ crawl_selected it j js
        | tiered ↦ crawl_selected it j js
      ]
    ]

unfoldable pub process_single_job : Iteration → Jobs → Jobs × Verdict
process_single_job it js =
    let recovered = (recover_stale_running_jobs it.now it.probe it.progress_age js).0 in
    elim (select_next_index_job recovered) [
      | some j ↦ ((it.index_job j.id recovered).1, processed)
      | none ↦ crawl_phase it recovered
    ]

-- Whether the loop sleeps after an iteration: nothing was processed, also where it raised.
abbrev pub sleeps : Verdict → Bool
sleeps processed = false
sleeps idle = true
sleeps crashed = true

-- The loop over the iterations that happen before the worker is stopped, with how each ended;
-- `run_once` leaves after the first, without a sleep.
unfoldable pub run_worker_loop : Bool → List Iteration → Jobs → Jobs × List Verdict
run_worker_loop run_once [] js = (js, [])
run_worker_loop true (it ∷ its) js = let (js', v) = process_single_job it js in (js', v ∷ [])
run_worker_loop false (it ∷ its) js =
    let (js', v) = process_single_job it js in
    let (js'', vs) = run_worker_loop false its js' in (js'', v ∷ vs)
