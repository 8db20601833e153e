-- ===== src/Crawl/Signals.antt =====
-- src/archive_tool/monitor.py: when a check sends a signal, and when it sends none.
use mathlib.Core.Path.{subst}
use healtharchive.Base.{
  ℕ, ◌+◌, ◌≤◌, ◌<◌, ◌≡◌, ◌≢◌, refl, true, false, none, some, arith, or_else, Option-cases, ◌⊎◌, inl,
  inr,
}
use healtharchive.Base.Int.{ℤ, leb_ℤ}
use healtharchive.Crawl.State.{CrawlState, no_errors, reset_runtime_errors}
use healtharchive.Crawl.Progress.{
  Stats, set_baseline, update_rate, note_progress, store_counts, update_progress,
}
use healtharchive.Crawl.Strategies.{Args}
use healtharchive.Crawl.Monitor.{
  Signal, no_stats, stalled, timeout_threshold, http_threshold, no_stats_due, stall_due,
  check_conditions, stall_millis,
}

-- Both error thresholds of the command line are positive.
pub record HasThresholds (a : Args) : Type 0 where
  pub timeouts : 0 < a.error_threshold_timeout
  pub https : 0 < a.error_threshold_http

-- What a sent signal says of the state before the check.
abbrev Due : Args → ℕ → CrawlState → Signal → Type 0
Due a now s no_stats = no_stats_due a now s ≡ true
Due a now s stalled = stall_due a now s ≡ true
Due a now s timeout_threshold = a.error_threshold_timeout ≤ s.error_counts.timeout
Due a now s http_threshold = a.error_threshold_http ≤ s.error_counts.http

check_conditions-Due :
    (a : Args) (now : ℕ) (s : CrawlState) (g : Signal)
    → (check_conditions a now s).1 ≡ some g
    → Due a now s g
unfolding check_conditions
check_conditions-Due a now s no_stats e = ground arith
check_conditions-Due a now s stalled e = ground arith
check_conditions-Due a now s timeout_threshold e = ground arith
check_conditions-Due a now s http_threshold e = ground arith

-- The state that a signal leaves.
abbrev left_by : ℕ → CrawlState → Signal → CrawlState
left_by now s no_stats = record s { last_no_stats_signal_timestamp = some now }
left_by now s stalled = record s { last_progress_timestamp = some now }
left_by now s timeout_threshold = s
left_by now s http_threshold = s

check_conditions-left_by :
    (a : Args) (now : ℕ) (s : CrawlState) (g : Signal)
    → (check_conditions a now s).1 ≡ some g
    → (check_conditions a now s).0 ≡ reset_runtime_errors (left_by now s g)
unfolding check_conditions
check_conditions-left_by a now s no_stats e = ground arith
check_conditions-left_by a now s stalled e = ground arith
check_conditions-left_by a now s timeout_threshold e = ground arith
check_conditions-left_by a now s http_threshold e = ground arith

-- The baseline and the rate leave the crawled count and the errors alone.
rate_kept :
    (crawled : ℤ) (now : ℕ) (s : CrawlState)
    → ((update_rate crawled now (set_baseline crawled now s)).last_crawled_count
        ≡ s.last_crawled_count)
      × ((update_rate crawled now (set_baseline crawled now s)).error_counts ≡ s.error_counts)
unfolding update_rate set_baseline
rate_kept crawled now s = ground arith

note_progress_fresh :
    (crawled : ℤ) (now : ℕ) (s : CrawlState)
    → leb_ℤ crawled s.last_crawled_count ≡ false
    → ((note_progress crawled now s).last_progress_timestamp ≡ some now)
      × (((note_progress crawled now s).error_counts.timeout ≡ 0)
          × ((note_progress crawled now s).error_counts.http ≡ 0))
unfolding note_progress reset_runtime_errors
note_progress_fresh crawled now s more = ground arith

update_progress_fresh :
    (d : Stats) (now : ℕ) (s : CrawlState)
    → leb_ℤ (or_else d.crawled s.last_crawled_count) s.last_crawled_count ≡ false
    → ((update_progress d now s).last_stats_timestamp ≡ some now)
      × ((update_progress d now s).last_progress_timestamp ≡ some now)
      × (((update_progress d now s).error_counts.timeout ≡ 0)
          × ((update_progress d now s).error_counts.http ≡ 0))
unfolding update_progress store_counts
update_progress_fresh d now s more =
    let crawled = or_else d.crawled s.last_crawled_count in
    let kept = rate_kept crawled now s in
    let fresh =
      note_progress_fresh crawled now (update_rate crawled now (set_baseline crawled now s))
        (rw kept.0 more) in
    (refl, fresh.0, fresh.1)

module _ (a : Args) (h : HasThresholds a) where
  not-Due_again :
      (now later : ℕ) (s : CrawlState) (g : Signal)
      → 0 < now
      → now ≤ later
      → later ≤ now + stall_millis a
      → ¬ Due a later (reset_runtime_errors (left_by now s g)) g
  unfolding reset_runtime_errors no_stats_due stall_due
  not-Due_again now later s no_stats p after within d = ground arith
  not-Due_again now later s stalled p after within d = ground arith
  not-Due_again now later s timeout_threshold p after within d = omega (arith, h.timeouts)
  not-Due_again now later s http_threshold p after within d = omega (arith, h.https)

  -- Where both error thresholds are positive and the clock is past zero, a check that sent a signal is
  -- not followed by a check that sends it again in the same stall window with no log line in between.
  pub check_conditions_debounced :
      (now later : ℕ) (s : CrawlState) (g : Signal)
      → 0 < now
      → (check_conditions a now s).1 ≡ some g
      → now ≤ later
      → later ≤ now + stall_millis a
      → (check_conditions a later (check_conditions a now s).0).1 ≢ some g
  check_conditions_debounced now later s g positive sent after within again =
      not-Due_again now later s g positive after within (
        subst (λ t. Due a later t g) (check_conditions-left_by a now s g sent)
          (check_conditions-Due a later (check_conditions a now s).0 g again))

  no_stats-quiet :
      (now later : ℕ) (s : CrawlState)
      → s.last_stats_timestamp ≡ some now
      → no_stats_due a later s ≡ false
  unfolding no_stats_due
  no_stats-quiet now later s e = ground arith

  stall-quiet :
      (now later : ℕ) (s : CrawlState)
      → s.last_progress_timestamp ≡ some now
      → now ≤ later
      → later ≤ now + stall_millis a
      → stall_due a later s ≡ false
  unfolding stall_due
  stall-quiet now later s e after within = ground arith

  check_quiet :
      (now later : ℕ) (s : CrawlState)
      → s.last_stats_timestamp ≡ some now
      → s.last_progress_timestamp ≡ some now
      → s.error_counts.timeout ≡ 0
      → s.error_counts.http ≡ 0
      → now ≤ later
      → later ≤ now + stall_millis a
      → check_conditions a later s ≡ (s, none)
  unfolding check_conditions
  check_quiet now later s stats progress t http after within = ground (
    arith,
    no_stats-quiet now later s stats,
    stall-quiet now later s progress after within,
    h.timeouts,
    h.https,
  )

  -- Where both error thresholds are positive, after statistics that show a page more the monitor has
  -- nothing to signal in the stall window.
  pub check_conditions-update_progress :
      (d : Stats) (now later : ℕ) (s : CrawlState)
      → leb_ℤ (or_else d.crawled s.last_crawled_count) s.last_crawled_count ≡ false
      → now ≤ later
      → later ≤ now + stall_millis a
      → check_conditions a later (update_progress d now s) ≡ (update_progress d now s, none)
  check_conditions-update_progress d now later s more after within =
      let crawled = or_else d.crawled s.last_crawled_count in
      let (stats, progress, errors) = update_progress_fresh d now s more in
      check_quiet now later (update_progress d now s) stats progress errors.0 errors.1 after within

silent_check :
    (a : Args) (now : ℕ) (s : CrawlState)
    → (check_conditions a now s).1 ≡ none
    → check_conditions a now s ≡ (s, none)
unfolding check_conditions
silent_check a now s e = ground arith

sent_check :
    (a : Args) (now : ℕ) (s : CrawlState) (g : Signal)
    → (check_conditions a now s).1 ≡ some g
    → (check_conditions a now s).0.error_counts ≡ no_errors
unfolding check_conditions reset_runtime_errors
sent_check a now s g e = ground arith

-- A check that sends nothing changes nothing; one that sends a signal leaves no errors counted.
pub check_conditions_state :
    (a : Args) (now : ℕ) (s : CrawlState)
    → (check_conditions a now s ≡ (s, none))
      ⊎ ((g : Signal) × ((check_conditions a now s).1 ≡ some g)
          × ((check_conditions a now s).0.error_counts ≡ no_errors))
check_conditions_state a now s = elim (Option-cases (check_conditions a now s).1) [
  | inl e ↦ inl (silent_check a now s e)
  | inr (g, e) ↦ inr (g, e, sent_check a now s g e)
]
