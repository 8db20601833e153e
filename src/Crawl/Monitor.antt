-- ===== src/Crawl/Monitor.antt =====
-- src/archive_tool/monitor.py: _check_stall_and_error_conditions.
use healtharchive.Base.{
  ℕ, ◌*◌, ◌-◌, Bool, false, ◌&&◌, ◌||◌, not, Option, none, some, ltb, leb, ◌==◌, is_none, is_some,
  if◌then◌else◌,
}
use healtharchive.Base.Int.{is_negative, is_positive}
use healtharchive.Crawl.State.{CrawlState, reset_runtime_errors}
use healtharchive.Crawl.Strategies.{Args}

-- The messages that the check puts on the queue: status "stalled" with reason "no_stats" or
-- "timeout", and status "error" with reason "timeout_threshold" or "http_threshold".
pub data Signal : Type 0 where
  no_stats stalled timeout_threshold http_threshold : Signal

abbrev pub stall_millis : Args → ℕ
stall_millis a = a.stall_timeout_minutes * 60000

-- `a or b` of two times, where 0 counts as absent
abbrev pub or_time : Option ℕ → Option ℕ → Option ℕ
or_time none b = b
or_time (some t) b = if t == 0 then b else some t

-- now - t > limit, for a t that is there
abbrev pub older_than : ℕ → ℕ → Option ℕ → Bool
older_than limit now none = false
older_than limit now (some t) = ltb limit (now - t)

unfoldable pub no_stats_due : Args → ℕ → CrawlState → Bool
no_stats_due a now s =
    is_none s.last_stats_timestamp
    && is_some s.stage_start_time
    && older_than (stall_millis a) now (or_time s.last_no_stats_signal_timestamp s.stage_start_time)

unfoldable pub stall_due : Args → ℕ → CrawlState → Bool
stall_due a now s =
    older_than (stall_millis a) now s.last_progress_timestamp
    && not (is_negative s.last_crawled_count)
    && (is_negative s.last_pending_count || is_positive s.last_pending_count)

-- The state after the check, with the message that was sent, if any.
unfoldable pub check_conditions : Args → ℕ → CrawlState → CrawlState × Option Signal
check_conditions a now s =
    if not a.enable_monitoring
    then (s, none)
    else if no_stats_due a now s
    then (
      reset_runtime_errors (record s { last_no_stats_signal_timestamp = some now }),
      some no_stats,
    )
    else if stall_due a now s
    then (reset_runtime_errors (record s { last_progress_timestamp = some now }), some stalled)
    else if leb a.error_threshold_timeout s.error_counts.timeout
    then (reset_runtime_errors s, some timeout_threshold)
    else if leb a.error_threshold_http s.error_counts.http
    then (reset_runtime_errors s, some http_threshold)
    else (s, none)
