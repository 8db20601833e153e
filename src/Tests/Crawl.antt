-- ===== src/Tests/Crawl.antt =====
-- The state and the monitor of a sample crawl.
use healtharchive.Base.{◌≡◌, ◌≢◌, ◌⊎◌, refl, false, none, some, arith}
use healtharchive.Base.Int.{pos, ◌≤ℤ◌}
use healtharchive.Crawl.State.{no_errors, reset_runtime_errors, begin_iteration, start_stage}
use healtharchive.Crawl.TempDirs.{clean_temp_dirs, sort_entries, insert_entry, collect, path_mem}
use healtharchive.Crawl.Persist.{unreadable, existing_dirs, init, save_persistent_state}
use healtharchive.Crawl.Progress.{update_progress}
use healtharchive.Crawl.Strategies.{attempt_worker_reduction}
use healtharchive.Crawl.Monitor.{Signal, no_stats, check_conditions, no_stats_due, stall_due}
use healtharchive.Crawl.Intervene.{handle_message, adapt}
use healtharchive.Crawl.Signals.{
  HasThresholds, check_conditions_debounced, check_conditions-update_progress,
  check_conditions_state,
}
use healtharchive.Crawl.Counts.{counts, IsWithin}
use healtharchive.Crawl.Budget.{run_events, happen, run_events-IsWithin}
use healtharchive.Crawl.Restart.{init-cap, init-save_persistent_state}
use healtharchive.Tests.CrawlSamples.{args, disk, fresh_state, started, events, first_stats}

args-HasThresholds : HasThresholds args
args-HasThresholds = record { timeouts = omega arith; https = omega arith }

run_events-IsWithin_example :
    IsWithin args
      (counts fresh_state)
      (counts (run_events args (λ s. false) (λ s. false) events started).state)
run_events-IsWithin_example = run_events-IsWithin args (λ s. false) (λ s. false) events started

-- Both stalls take a worker.
two_reductions :
    counts (run_events args (λ s. false) (λ s. false) events started).state
    ≡ record { workers = pos 2; reductions = pos 2; rotations = pos 0; restarts = pos 0 }
two_reductions =
    unfold run_events happen check_conditions no_stats_due stall_due reset_runtime_errors
      begin_iteration start_stage handle_message adapt attempt_worker_reduction
      save_persistent_state in
    refl

check_conditions_debounced_example :
    (check_conditions args 2000500 (check_conditions args 2000000 fresh_state).0).1 ≢ some no_stats
check_conditions_debounced_example =
    check_conditions_debounced args args-HasThresholds 2000000 2000500 fresh_state no_stats
      (omega arith) (unfold check_conditions no_stats_due stall_due in refl) (omega arith)
      (omega arith)

check_conditions-update_progress_example :
    check_conditions args 3000000 (update_progress first_stats 2000000 fresh_state)
    ≡ (update_progress first_stats 2000000 fresh_state, none)
check_conditions-update_progress_example =
    check_conditions-update_progress args args-HasThresholds first_stats 2000000 3000000 fresh_state
      refl (omega arith) (omega arith)

check_conditions_state_example :
    (check_conditions args 2000000 fresh_state ≡ (fresh_state, none))
    ⊎ ((g : Signal) × ((check_conditions args 2000000 fresh_state).1 ≡ some g)
        × ((check_conditions args 2000000 fresh_state).0.error_counts ≡ no_errors))
check_conditions_state_example = check_conditions_state args 2000000 fresh_state

init-cap_example : (init disk (pos 4) unreadable).state.current_workers ≤ℤ pos 4
init-cap_example = init-cap disk (pos 4) unreadable

init-save_persistent_state_example :
    counts (init disk (pos 4) (save_persistent_state disk started).file).state ≡ counts fresh_state
init-save_persistent_state_example =
    init-save_persistent_state disk disk (pos 4) started refl
      (unfold save_persistent_state existing_dirs clean_temp_dirs sort_entries insert_entry collect
          path_mem in
        refl)
      (omega arith)
