-- ===== src/Crawl/Budget.antt =====
-- src/archive_tool: a crawl between two resets of its counts, as steps in any order, and the limits
-- on its adaptations that every such run respects.
use healtharchive.Base.{
  ℕ, ◌≡◌, refl, String, Bool, true, false, ◌&&◌, List, [], ◌∷◌, arith, if◌then◌else◌,
}
use healtharchive.Crawl.State.{
  CrawlState, begin_iteration, start_stage, reset_runtime_errors, record_error,
}
use healtharchive.Crawl.Persist.{
  Disk, Persistent, save_persistent_state, add_temp_dir, get_temp_dir_paths,
}
use healtharchive.Crawl.Progress.{
  Stats, update_progress, set_baseline, update_rate, note_progress, store_counts,
}
use healtharchive.Crawl.Strategies.{
  Args, Network, attempt_worker_reduction, attempt_vpn_rotation, attempt_container_restart,
}
use healtharchive.Crawl.Monitor.{check_conditions}
use healtharchive.Crawl.LogLine.{
  Parsed, not_json, malformed, entry, object, not_object, parse_log_line,
}
use healtharchive.Crawl.Intervene.{
  Message, Handled, handle_message, adapt, back_off, should_attempt_container_restart, leave_with,
  continue_with,
}
use healtharchive.Crawl.Counts.{Counts, counts, IsWithin, Move, Move-IsWithin, max_right, min_right}

-- A save leaves the four numbers alone.
pub counts-save :
    (disk : Disk) (p : Persistent) → counts (save_persistent_state disk p).state ≡ counts p.state
unfolding save_persistent_state
counts-save disk p = refl

module _ (a : Args) (disk : Disk) where
  abbrev Moves : Persistent → Persistent → Type 0
  Moves p q = Move a (counts p.state) (counts q.state)

  reduction-Moves : (p : Persistent) → Moves p (attempt_worker_reduction disk a p).result
  unfolding attempt_worker_reduction save_persistent_state reset_runtime_errors
  reduction-Moves p = grind (arith, Move.stay, Move.reduce)

  rotation-Moves : (n : Network) (p : Persistent) → Moves p (attempt_vpn_rotation disk a n p).result
  unfolding attempt_vpn_rotation save_persistent_state reset_runtime_errors
  rotation-Moves n p = grind (arith, Move.stay, Move.rotate)

  restart-Moves : (p : Persistent) → Moves p (attempt_container_restart disk a p).result
  unfolding attempt_container_restart save_persistent_state reset_runtime_errors
  restart-Moves p = grind (arith, Move.stay, Move.restart)

  back_off-Moves : (stop : Bool) (p : Persistent) → Moves p (back_off a stop p).result
  unfolding back_off reset_runtime_errors
  back_off-Moves stop p = Move.stay (ground arith)

  if-Moves :
      (test : Bool) (p : Persistent) (x y : Handled)
      → Moves p x.result
      → Moves p y.result
      → Moves p (if test then x else y).result
  if-Moves true p x y h k = h
  if-Moves false p x y h k = k

  adapt-Moves :
      (n : Network) (stop : Bool) (m : Message) (p : Persistent)
      → Moves p (adapt disk a n stop m p).result
  unfolding adapt
  adapt-Moves n stop m p =
      let reduced = attempt_worker_reduction disk a p in
      let rotated = attempt_vpn_rotation disk a n p in
      let restarted = attempt_container_restart disk a p in
      let restart_allowed =
        should_attempt_container_restart false a.enable_adaptive_restart m && restarted.performed in
      let last = back_off a stop p in
      let third = if restart_allowed then leave_with restarted.result else last in
      let rotate_allowed = a.enable_vpn_rotation && rotated.performed in
      let second = if rotate_allowed then continue_with rotated.result else third in
      if-Moves (a.enable_adaptive_workers && reduced.performed) p (leave_with reduced.result) second
        (reduction-Moves p)
        (if-Moves rotate_allowed p (continue_with rotated.result) third (rotation-Moves n p) (
          if-Moves restart_allowed p (leave_with restarted.result) last (restart-Moves p)
            (back_off-Moves stop p)))

  handle_message-Moves :
      (n : Network) (stop : Bool) (m : Message) (p : Persistent)
      → Moves p (handle_message disk a n stop m p).result
  unfolding handle_message
  handle_message-Moves n stop m p = grind (arith, adapt-Moves n stop m p, Move.stay)

counts-update_progress :
    (d : Stats) (now : ℕ) (s : CrawlState) → counts (update_progress d now s) ≡ counts s
unfolding update_progress store_counts note_progress update_rate set_baseline reset_runtime_errors
counts-update_progress d now s = ground arith

counts-check_conditions :
    (a : Args) (now : ℕ) (s : CrawlState) → counts (check_conditions a now s).0 ≡ counts s
unfolding check_conditions reset_runtime_errors
counts-check_conditions a now s = ground arith

counts-parse_log_line :
    (t h : String → Bool) (line : String) (e : Parsed) (now : ℕ) (s : CrawlState)
    → counts (parse_log_line t h line e now s) ≡ counts s
unfolding parse_log_line record_error
counts-parse_log_line t h line not_json now s = ground arith
counts-parse_log_line t h line malformed now s = refl
counts-parse_log_line t h line (entry message context level not_object) now s = ground arith
counts-parse_log_line t h line (entry message context level (object d msg)) now s =
    ground (arith, counts-update_progress d now s)

-- One thing that happens in a crawl between two resets of the counts: a log line, a check of the
-- monitor, a message handled by the main loop, the start of a round of the
-- stage loop, the reset of a stage, a temp directory recorded or
-- validated. The monitor and the main loop run in two threads, so they come in any order.
pub data Event : Type 0 where
  log_line : String → Parsed → ℕ → Event
  check : ℕ → Event
  message : Disk → Network → Bool → Message → Event
  iteration : ℕ → Event
  stage : Event
  temp_dir : Disk → String → Event
  temp_paths : Disk → Event

module _ (a : Args) (t h : String → Bool) where
  abbrev on_state : (CrawlState → CrawlState) → Persistent → Persistent
  on_state f p = record p { state = f p.state }

  unfoldable pub happen : Event → Persistent → Persistent
  happen (log_line line e now) p = on_state (parse_log_line t h line e now) p
  happen (check now) p = on_state (λ s. (check_conditions a now s).0) p
  happen (message disk n stop m) p = (handle_message disk a n stop m p).result
  happen (iteration now) p = on_state (begin_iteration now) p
  happen stage p = on_state start_stage p
  happen (temp_dir disk path) p = add_temp_dir disk path p
  happen (temp_paths disk) p = (get_temp_dir_paths disk p).0

  unfoldable pub run_events : List Event → Persistent → Persistent
  run_events [] p = p
  run_events (e ∷ es) p = run_events es (happen e p)

  happen-Move : (e : Event) (p : Persistent) → Move a (counts p.state) (counts (happen e p).state)
  unfolding happen
  happen-Move (log_line line e now) p = Move.stay (counts-parse_log_line t h line e now p.state)
  happen-Move (check now) p = Move.stay (counts-check_conditions a now p.state)
  happen-Move (message disk n stop m) p = handle_message-Moves a disk n stop m p
  happen-Move (iteration now) p = Move.stay (unfold begin_iteration in refl)
  happen-Move stage p = Move.stay (unfold start_stage in refl)
  happen-Move (temp_dir disk path) p =
      Move.stay (unfold add_temp_dir save_persistent_state in ground arith)
  happen-Move (temp_paths disk) p =
      Move.stay (unfold get_temp_dir_paths save_persistent_state in ground arith)

  run_events-keeps :
      (b : Counts) (es : List Event) (p : Persistent)
      → IsWithin a b (counts p.state)
      → IsWithin a b (counts (run_events es p).state)
  unfolding run_events
  run_events-keeps b [] p w = w
  run_events-keeps b (e ∷ es) p w =
      run_events-keeps b es (happen e p)
        (Move-IsWithin a b (counts p.state) (counts (happen e p).state) (happen-Move e p) w)

  IsWithin-start : (b : Counts) → IsWithin a b b
  IsWithin-start b = record {
    reductions = max_right a.max_worker_reductions b.reductions;
    rotations = max_right a.max_vpn_rotations b.rotations;
    restarts = max_right a.max_container_restarts b.restarts;
    floor = min_right a.min_workers b.workers;
    conserved = refl;
  }

  -- Whatever the log, the clock, the network and the order of the threads, a run from `p` keeps every
  -- adaptation within its limit, the workers at the floor or above, and the workers that are gone
  -- equal to the reductions that were counted.
  pub run_events-IsWithin :
      (es : List Event) (p : Persistent)
      → IsWithin a (counts p.state) (counts (run_events es p).state)
  run_events-IsWithin es p =
      run_events-keeps (counts p.state) es p (IsWithin-start (counts p.state))
