-- ===== src/Crawl/LogLine.antt =====
-- src/archive_tool/monitor.py: _parse_log_line, after json.loads.
use healtharchive.Base.{
  ℕ, String, Bool, false, ◌&&◌, ◌||◌, Option, none, some, [], ◌∷◌, str_eq, str_mem, if◌then◌else◌,
}
use healtharchive.Crawl.State.{CrawlState, ErrorType, timeout, http, other, record_error}
use healtharchive.Crawl.Progress.{Stats, update_progress}

-- The details of an entry: crawl statistics if it is an object, with the text of its `msg`.
pub data Details : Type 0 where
  object : Stats → String → Details
  not_object : Details

-- What json.loads makes of a line: no JSON, a value whose fields are not of the types that the
-- parser uses (the exception is logged), or an entry.
pub data Parsed : Type 0 where
  not_json malformed : Parsed
  entry : (message context level : String) → Details → Parsed

-- The searches of the two compiled patterns of constants.py in a text.
module _ (timeout_search http_search : String → Bool) where
  -- The error that a text stands for, if any.
  abbrev pub classify : String → Option ErrorType
  classify t = if timeout_search t then some timeout else if http_search t then some http else none

  -- The same for a log entry, whose message and whole line are searched.
  abbrev pub classify_entry : String → String → Option ErrorType
  classify_entry message line =
      if timeout_search message || timeout_search line
      then some timeout
      else if http_search message || http_search line
      then some http
      else none

  abbrev record_if : Option ErrorType → CrawlState → CrawlState
  record_if none s = s
  record_if (some e) s = record_error e s

  abbrev or_other : Option ErrorType → ErrorType
  or_other none = other
  or_other (some e) = e

  -- A page that failed to load and will be retried; details that are no object raise, and the
  -- exception is logged.
  abbrev page_failed : Details → CrawlState → CrawlState
  page_failed not_object s = s
  page_failed (object d msg) s = record_error (or_other (classify msg)) s

  -- An entry at level error or warn: what is neither a timeout nor an HTTP error counts as other,
  -- at level error alone.
  abbrev entry_error : String → String → String → CrawlState → CrawlState
  entry_error line message level s = elim (classify_entry message line) [
    | some e ↦ record_error e s
    | none ↦ if str_eq level "error" then record_error other s else s
  ]

  abbrev pub is_statistics : String → String → Details → Bool
  is_statistics context message not_object = false
  is_statistics context message (object d msg) =
      str_eq context "crawlStatus" && str_eq message "Crawl statistics"

  abbrev stats_of : Details → Stats
  stats_of not_object = record { crawled = none; total = none; pending = none; failed = none }
  stats_of (object d msg) = d

  unfoldable pub parse_log_line : String → Parsed → ℕ → CrawlState → CrawlState
  parse_log_line line not_json now s = if str_eq line "" then s else record_if (classify line) s
  parse_log_line line malformed now s = s
  parse_log_line line (entry message context level details) now s =
      if str_eq line ""
      then s
      else if is_statistics context message details
      then update_progress (stats_of details) now s
      else if str_eq context "pageStatus" && str_eq message "Page Load Failed: will retry"
      then page_failed details s
      else if str_mem level ("error" ∷ "warn" ∷ [])
      then entry_error line message level s
      else s
