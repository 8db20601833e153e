-- ===== src/Crawl/Strategies.antt =====
-- src/archive_tool/strategies.py: the three adaptations. Each answers whether it was performed, what
-- it leaves of the state and its file, and whether it stopped the container.
use healtharchive.Base.{
  ℕ, ◌*◌, ◌-◌, String, Bool, true, false, ◌&&◌, not, Option, none, some, ltb, str_eq, if◌then◌else◌,
}
use healtharchive.Base.Int.{ℤ, leb_ℤ, max_ℤ, succ, pred, is_positive}
use healtharchive.Crawl.State.{CrawlState, reset_runtime_errors}
use healtharchive.Crawl.Persist.{Disk, Persistent, save_persistent_state}

-- The parsed command line, as far as the strategies and the monitor read it.
pub record Args : Type 0 where
  pub enable_monitoring : Bool
  pub stall_timeout_minutes : ℕ
  pub error_threshold_timeout : ℕ
  pub error_threshold_http : ℕ
  pub enable_adaptive_workers : Bool
  pub max_worker_reductions : ℤ
  pub min_workers : ℤ
  pub enable_adaptive_restart : Bool
  pub max_container_restarts : ℤ
  pub enable_vpn_rotation : Bool
  pub max_vpn_rotations : ℤ
  pub vpn_connect_command : String
  pub vpn_rotation_frequency_minutes : ℕ
  pub backoff_delay_minutes : ℕ

pub record Attempt : Type 0 where
  pub performed : Bool
  pub result : Persistent
  pub stopped_container : Bool

abbrev pub not_performed : Persistent → Attempt
not_performed p = record { performed = false; result = p; stopped_container = false }

-- reset_runtime_errors, then save_persistent_state
abbrev pub reset_and_save : Disk → Persistent → CrawlState → Persistent
reset_and_save disk p s = save_persistent_state disk (record p { state = reset_runtime_errors s })

unfoldable pub attempt_worker_reduction : Disk → Args → Persistent → Attempt
attempt_worker_reduction disk a p =
    let s = p.state in
    if not a.enable_adaptive_workers
    then not_performed p
    else if leb_ℤ a.max_worker_reductions s.worker_reductions_done
    then not_performed p
    else if leb_ℤ s.current_workers a.min_workers
    then not_performed p
    else record {
      performed = true;
      result = reset_and_save disk p (record s {
        current_workers = max_ℤ a.min_workers (pred s.current_workers);
        worker_reductions_done = succ s.worker_reductions_done;
      });
      stopped_container = true;
    }

unfoldable pub attempt_container_restart : Disk → Args → Persistent → Attempt
attempt_container_restart disk a p =
    let s = p.state in
    if not a.enable_adaptive_restart
    then not_performed p
    else if not (is_positive a.max_container_restarts)
    then not_performed p
    else if leb_ℤ a.max_container_restarts s.container_restarts_done
    then not_performed p
    else record {
      performed = true;
      result =
          reset_and_save disk p
            (record s { container_restarts_done = succ s.container_restarts_done });
      stopped_container = true;
    }

-- What the rotation meets outside: the time, whether the command parses to a program on the path,
-- whether it succeeds, and whether a stop is requested while the network settles.
pub record Network : Type 0 where
  pub now : ℕ
  pub command_found : Bool
  pub command_succeeds : Bool
  pub stop_requested : Bool

-- The last rotation is too recent.
abbrev pub too_soon : ℕ → ℕ → Option ℕ → Bool
too_soon now minutes none = false
too_soon now minutes (some last) = ltb 0 minutes && ltb (now - last) (minutes * 60000)

unfoldable pub attempt_vpn_rotation : Disk → Args → Network → Persistent → Attempt
attempt_vpn_rotation disk a n p =
    let s = p.state in
    if not a.enable_vpn_rotation
    then not_performed p
    else if leb_ℤ a.max_vpn_rotations s.vpn_rotations_done
    then not_performed p
    else if str_eq a.vpn_connect_command ""
    then not_performed p
    else if not n.command_found
    then not_performed p
    else if too_soon n.now a.vpn_rotation_frequency_minutes s.last_vpn_rotation_timestamp
    then not_performed p
    else if not n.command_succeeds
    then not_performed p
    else if n.stop_requested
    then not_performed p
    else record {
      performed = true;
      result = reset_and_save disk p (record s {
        vpn_rotations_done = succ s.vpn_rotations_done;
        last_vpn_rotation_timestamp = some n.now;
      });
      stopped_container = false;
    }
