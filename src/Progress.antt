-- ===== src/Progress.antt =====
-- src/ha_backend/indexing/progress.py: the reporter of the progress of indexing a job.
pub mod Synced
use healtharchive.Base.{
  ℕ, zero, suc, ◌+◌, ◌-◌, String, Bool, true, false, ◌&&◌, ◌||◌, not, Option, none, some, List, [],
  ◌∷◌, leb, str_eq, opt_is, str_mem, or_else, if◌then◌else◌,
}
use healtharchive.Base.Int.{ℤ, pos, negsuc}

abbrev pub indexing_progress_phases : List String
indexing_progress_phases =
    "starting" ∷ "consolidate_warcs" ∷ "discover" ∷ "verify" ∷ "read_warc" ∷ "finalize" ∷ "failed"
    ∷ []

-- The counters that a row and a reporter hold.
pub record Counters : Type 0 where
  pub warc_index : ℕ
  pub warc_total : ℕ
  pub records_processed : ℕ
  pub bytes_processed : ℕ
  pub bytes_total : ℕ

-- The row of the job in archive_job_indexing_progress.
pub record Progress : Type 0 where
  pub phase : String
  pub current_warc : Option String
  pub counters : Counters
  pub started_at : ℕ
  pub last_progress_at : ℕ

-- `_values` without the phase, which is the one of the call whenever it is read.
pub record Reporter : Type 0 where
  pub heartbeat_interval : ℕ
  pub last_write_monotonic : Option ℕ
  pub last_phase : Option String
  pub last_warc : Option String
  pub started_at : Option ℕ
  pub disabled : Bool
  pub current_warc : Option String
  pub counters : Counters

abbrev pub no_counters : Counters
no_counters = record {
  warc_index = 0;
  warc_total = 0;
  records_processed = 0;
  bytes_processed = 0;
  bytes_total = 0;
}

-- A negative interval counts as zero; clocks are in milliseconds.
unfoldable pub init : ℤ → Reporter
init interval = record {
  heartbeat_interval = elim interval [ pos n ↦ n | negsuc n ↦ 0 ];
  last_write_monotonic = none;
  last_phase = none;
  last_warc = none;
  started_at = none;
  disabled = false;
  current_warc = none;
  counters = no_counters;
}

-- The arguments of a call. The WARC is given by its file name, cut to 255 characters.
pub record Update : Type 0 where
  pub phase : String
  pub warc_name : Option String
  pub warc_index : Option ℤ
  pub warc_total : Option ℤ
  pub records_processed : Option ℤ
  pub bytes_processed : Option ℤ
  pub bytes_total : Option ℤ
  pub force : Bool

-- The clocks during a call, and whether its session raises.
pub record Moment : Type 0 where
  pub monotonic : ℕ
  pub now : ℕ
  pub write_fails : Bool

-- max(0, int(value)), where a value is given
abbrev pub counted_or : Option ℤ → ℕ → ℕ
counted_or none old = old
counted_or (some (pos n)) old = n
counted_or (some (negsuc n)) old = 0

unfoldable pub updated_counters : Update → Counters → Counters
updated_counters u c = record {
  warc_index = counted_or u.warc_index c.warc_index;
  warc_total = counted_or u.warc_total c.warc_total;
  records_processed = counted_or u.records_processed c.records_processed;
  bytes_processed = counted_or u.bytes_processed c.bytes_processed;
  bytes_total = counted_or u.bytes_total c.bytes_total;
}

abbrev pub same_name : Option String → Option String → Bool
same_name none none = true
same_name none (some t) = false
same_name (some s) none = false
same_name (some s) (some t) = str_eq s t

-- The phase or the WARC differs from that of the last write.
unfoldable pub changed_context : Reporter → Update → Bool
changed_context r u = not (opt_is r.last_phase u.phase) || not (same_name u.warc_name r.last_warc)

unfoldable pub interval_elapsed : Reporter → Moment → Bool
interval_elapsed r m = elim r.last_write_monotonic [
  | none ↦ true
  | some last ↦ leb (last + r.heartbeat_interval) m.monotonic
]

-- The values of the call are taken over, and the start where there is none.
unfoldable pub with_values : Update → Moment → Reporter → Reporter
with_values u m r = record r {
  current_warc = u.warc_name;
  counters = updated_counters u r.counters;
  started_at = some (or_else r.started_at m.now);
}

-- A new row has the start of the reporter, and so has the row of an earlier reporter at the first
-- write; another keeps its own.
abbrev pub row_start : Option Progress → Option ℕ → ℕ → ℕ
row_start none last start = start
row_start (some p) none start = start
row_start (some p) (some last) start = p.started_at

unfoldable pub written_row : Reporter → Update → Moment → Option Progress → Progress
written_row r u m row = record {
  phase = u.phase;
  current_warc = r.current_warc;
  counters = r.counters;
  started_at = row_start row r.last_write_monotonic (or_else r.started_at m.now);
  last_progress_at = m.now;
}

unfoldable pub write : Update → Moment → Reporter → Option Progress → Reporter × Option Progress
write u m r row = if m.write_fails then (record r { disabled = true }, row) else (
  record r {
    last_write_monotonic = some m.monotonic;
    last_phase = some u.phase;
    last_warc = u.warc_name;
  },
  some (written_row r u m row),
)

-- None for ValueError: a phase that there is not.
unfoldable pub update :
    Update → Moment → Reporter → Option Progress → Option (Reporter × Option Progress)
update u m r row =
    if r.disabled
    then some (r, row)
    else if not (str_mem u.phase indexing_progress_phases)
    then none
    else if not (u.force || (changed_context r u || interval_elapsed r m))
    then some (r, row)
    else some (write u m (with_values u m r) row)

unfoldable pub mark_failed :
    Moment → Reporter → Option Progress → Option (Reporter × Option Progress)
mark_failed m r row =
    update
      (record {
        phase = "failed";
        warc_name = r.current_warc;
        warc_index = none;
        warc_total = none;
        records_processed = none;
        bytes_processed = none;
        bytes_total = none;
        force = true;
      })
      m r row

unfoldable pub clear : Bool → Reporter → Option Progress → Reporter × Option Progress
clear write_fails r row =
    if r.disabled
    then (r, row)
    else if write_fails
    then (record r { disabled = true }, row)
    else (r, none)

-- The calls of a reporter; one that raises leaves everything as it was.
pub data Call : Type 0 where
  call_update : Update → Moment → Call
  call_mark_failed : Moment → Call
  call_clear : Bool → Call

abbrev pub or_same :
    Reporter × Option Progress → Option (Reporter × Option Progress) → Reporter × Option Progress
or_same s none = s
or_same s (some t) = t

unfoldable pub run_call : Call → Reporter × Option Progress → Reporter × Option Progress
run_call (call_update u m) (r, row) = or_same (r, row) (update u m r row)
run_call (call_mark_failed m) (r, row) = or_same (r, row) (mark_failed m r row)
run_call (call_clear fails) (r, row) = clear fails r row

unfoldable pub run_calls : List Call → Reporter × Option Progress → Reporter × Option Progress
run_calls [] s = s
run_calls (c ∷ cs) s = run_calls cs (run_call c s)
