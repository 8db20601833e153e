-- ===== src/Crawl/Progress.antt =====
-- src/archive_tool/state.py: update_progress.
use healtharchive.Base.{
  ℕ, ◌-◌, Bool, ◌&&◌, ◌||◌, not, Option, none, some, ltb, or_else, if◌then◌else◌,
}
use healtharchive.Base.Int.{ℤ, is_negative, leb_ℤ, eq_ℤ, distance}
use healtharchive.Crawl.State.{CrawlState, ErrorCounts, no_rate, reset_runtime_errors}

-- The details of a crawl statistics line; a key that is absent is `none`.
pub record Stats : Type 0 where
  pub crawled : Option ℤ
  pub total : Option ℤ
  pub pending : Option ℤ
  pub failed : Option ℤ

-- `previous_crawled_count < 0 and crawled >= 0`
unfoldable pub set_baseline : ℤ → ℕ → CrawlState → CrawlState
set_baseline crawled now s =
    if is_negative s.previous_crawled_count && not (is_negative crawled)
    then record s { previous_crawled_count = crawled; previous_stats_timestamp = some now }
    else s

-- The rate over the time since the last statistics that counted.
unfoldable pub update_rate : ℤ → ℕ → CrawlState → CrawlState
update_rate crawled now s = elim s.previous_stats_timestamp [
  | none ↦ s
  | some t ↦
      let counted = record s {
        previous_stats_timestamp = some now;
        previous_crawled_count = crawled;
      } in
      if not (ltb t now && leb_ℤ s.previous_crawled_count crawled)
      then s
      else if ltb 1000 (now - t)
      then record counted {
        progress_rate = record {
          pages = distance crawled s.previous_crawled_count;
          millis = now - t;
        };
      }
      else if ltb 60000 (now - t) && eq_ℤ crawled s.previous_crawled_count
      then record counted { progress_rate = no_rate }
      else s
]

abbrev has_errors : ErrorCounts → Bool
has_errors c = ltb 0 c.timeout || ltb 0 c.http || ltb 0 c.other

-- `crawled > last_crawled_count`: the stall clock is set, and the errors start again from 0.
unfoldable pub note_progress : ℤ → ℕ → CrawlState → CrawlState
note_progress crawled now s =
    let seen = record s {
      last_progress_timestamp = some now;
      last_no_stats_signal_timestamp = none;
    } in
    if leb_ℤ crawled s.last_crawled_count
    then s
    else if has_errors s.error_counts
    then reset_runtime_errors seen
    else seen

unfoldable pub store_counts : Stats → ℕ → CrawlState → CrawlState → CrawlState
store_counts d now old s = record s {
  last_crawled_count = or_else d.crawled old.last_crawled_count;
  last_total_count = or_else d.total old.last_total_count;
  last_pending_count = or_else d.pending old.last_pending_count;
  last_failed_count = or_else d.failed old.last_failed_count;
  last_stats_timestamp = some now;
}

unfoldable pub update_progress : Stats → ℕ → CrawlState → CrawlState
update_progress d now s =
    let crawled = or_else d.crawled s.last_crawled_count in
    store_counts d now s
      (note_progress crawled now (update_rate crawled now (set_baseline crawled now s)))
