-- ===== src/Jobs/Log.antt =====
-- src/ha_backend/jobs.py: what the crawler's log says of a failed run.
use text.Mathlib.Text.{find?}
use healtharchive.Base.{
  ℕ, String, Bool, false, ◌&&◌, ◌||◌, Option, none, some, List, [], ◌∷◌, ltb, ◌==◌, if◌then◌else◌,
  is_some,
}
use healtharchive.Base.Text.{lower}
use healtharchive.Jobs.{CrawlStats}

-- A combined log: its path, its last 64 KiB, and the last statistics that parse from it.
pub record LogFile : Type 0 where
  pub path : String
  pub tail : String
  pub stats : Option CrawlStats

-- marker in text
abbrev pub contains : String → String → Bool
contains text marker = is_some (find? text marker)

abbrev any_in : String → List String → Bool
any_in text [] = false
any_in text (m ∷ ms) = contains text m || any_in text ms

abbrev config_error_markers : List String
config_error_markers = "unrecognized arguments" ∷ "unknown option" ∷ []

abbrev infra_error_markers : List String
infra_error_markers =
    "is invalid or not writable" ∷ "permission denied" ∷ "transport endpoint is not connected"
    ∷ "[errno 107]" ∷ "[errno 13]" ∷ "[errno 1]" ∷ []

pub looks_like_config_error : String → Bool
looks_like_config_error tail = any_in (lower tail) config_error_markers

pub looks_like_infra_error : String → Bool
looks_like_infra_error tail = any_in (lower tail) infra_error_markers

pub looks_like_warc_finalization_failure : String → Bool
looks_like_warc_finalization_failure tail =
    contains (lower tail) "warc2zim"
    && contains (lower tail) "unable to find warc record for main page"
    && contains (lower tail) "final overall status: failed"

pub has_warc_complete_crawl_status : Option CrawlStats → Bool
has_warc_complete_crawl_status none = false
has_warc_complete_crawl_status (some s) = ltb 0 s.crawled && ltb 0 s.total && s.pending == 0

-- The count of indexable WARCs for which the failure is accepted. `warcs` is how many the discovery
-- finds, 0 where it raises.
unfoldable pub warc_complete_finalization_failure : Option LogFile → ℕ → Option ℕ
unfolding looks_like_warc_finalization_failure has_warc_complete_crawl_status
warc_complete_finalization_failure none warcs = none
warc_complete_finalization_failure (some log) warcs =
    if looks_like_warc_finalization_failure log.tail
      && has_warc_complete_crawl_status log.stats
      && ltb 0 warcs
    then some warcs
    else none
