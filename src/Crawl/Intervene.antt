-- ===== src/Crawl/Intervene.antt =====
-- src/archive_tool/main.py: the handling of a message of the monitor in the inner loop, and
-- _should_attempt_container_restart.
use healtharchive.Base.{
  String, Bool, true, false, ◌&&◌, ◌||◌, not, ltb, str_eq, str_mem, [], ◌∷◌, if◌then◌else◌,
}
use healtharchive.Crawl.State.{reset_runtime_errors}
use healtharchive.Crawl.Persist.{Disk, Persistent}
use healtharchive.Crawl.Strategies.{
  Args, Network, attempt_worker_reduction, attempt_vpn_rotation, attempt_container_restart,
}

-- A message of the queue: its status and its reason ("N/A" where it has none).
pub record Message : Type 0 where
  pub status : String
  pub reason : String

unfoldable pub should_attempt_container_restart : Bool → Bool → Message → Bool
should_attempt_container_restart adaptation_performed enable_restart m =
    if adaptation_performed
    then false
    else if not enable_restart
    then false
    else str_eq m.status "stalled" || str_mem m.reason ("http_threshold" ∷ "timeout_threshold" ∷ [])

-- What the loop does next.
pub data Next : Type 0 where
  leave_for_adaptation leave_stopped go_on : Next

pub record Handled : Type 0 where
  pub next : Next
  pub result : Persistent
  pub backed_off : Bool

abbrev pub continue_with : Persistent → Handled
continue_with p = record { next = go_on; result = p; backed_off = false }

abbrev pub leave_with : Persistent → Handled
leave_with p = record { next = leave_for_adaptation; result = p; backed_off = false }

abbrev errors_reset : Persistent → Persistent
errors_reset p = record p { state = reset_runtime_errors p.state }

-- No strategy applied: a backoff delay that a stop may end, and the errors start again from 0.
unfoldable pub back_off : Args → Bool → Persistent → Handled
back_off a stop_during_wait p =
    if ltb 0 a.backoff_delay_minutes
    then (if stop_during_wait
        then record { next = leave_stopped; result = p; backed_off = true }
        else record { next = go_on; result = errors_reset p; backed_off = true })
    else continue_with (errors_reset p)

-- The strategies in the order of the source; each is tried where its flag allows it.
unfoldable pub adapt : Disk → Args → Network → Bool → Message → Persistent → Handled
adapt disk a n stop_during_wait m p =
    let reduced = attempt_worker_reduction disk a p in
    let rotated = attempt_vpn_rotation disk a n p in
    let restarted = attempt_container_restart disk a p in
    if a.enable_adaptive_workers && reduced.performed
    then leave_with reduced.result
    else if a.enable_vpn_rotation && rotated.performed
    then continue_with rotated.result
    else if should_attempt_container_restart false a.enable_adaptive_restart m
        && restarted.performed
    then leave_with restarted.result
    else back_off a stop_during_wait p

-- The last branch of the source, for an error with a message text, stands behind the test for the
-- status "error" and is never reached.
unfoldable pub handle_message : Disk → Args → Network → Bool → Message → Persistent → Handled
handle_message disk a n stop_during_wait m p =
    if str_eq m.status "progress"
    then continue_with p
    else if str_eq m.status "stalled" || str_eq m.status "error"
    then adapt disk a n stop_during_wait m p
    else continue_with p
