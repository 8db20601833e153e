-- ===== src/Worker/Selection.antt =====
-- src/ha_backend/worker/main.py: _select_next_crawl_job and _select_next_index_job. A query is a
-- filter and a first row in the order of the sort keys; NULL sorts first.
use healtharchive.Base.{
  ℕ, ◌+◌, ◌*◌, Bool, true, false, ◌&&◌, ◌||◌, not, Option, none, some, [], ◌∷◌, ltb, leb, ◌==◌,
  str_eq, str_mem, opt_is, is_some,
}
use healtharchive.Base.First.{first_by}
use healtharchive.Jobs.{ArchiveJob, Jobs}

abbrev pub infra_error_retry_cooldown : ℕ
infra_error_retry_cooldown = 10 * 60

-- `status IN (queued, retryable) AND (crawler_status IS NULL OR crawler_status <> infra_error OR
-- updated_at <= now - 10 minutes)`, with a source to join.
unfoldable pub is_crawlable : ℕ → ArchiveJob → Bool
is_crawlable now j =
    is_some j.source_code
    && str_mem j.status ("queued" ∷ "retryable" ∷ [])
    && (not (opt_is j.crawler_status "infra_error")
        || leb (j.updated_at + infra_error_retry_cooldown) now)

unfoldable pub is_indexable : ArchiveJob → Bool
is_indexable j = is_some j.source_code && str_eq j.status "completed"

-- a < b, where NULL sorts first
abbrev pub before : Option ℕ → Option ℕ → Bool
before none none = false
before none (some b) = true
before (some a) none = false
before (some a) (some b) = ltb a b

abbrev pub ties : Option ℕ → Option ℕ → Bool
ties none none = true
ties none (some b) = false
ties (some a) none = false
ties (some a) (some b) = a == b

-- queued_at ASC NULLS FIRST, created_at ASC
unfoldable pub crawl_before : ArchiveJob → ArchiveJob → Bool
crawl_before a b =
    before a.queued_at b.queued_at
    || (ties a.queued_at b.queued_at && ltb a.created_at b.created_at)

-- finished_at ASC NULLS FIRST, id ASC
unfoldable pub index_before : ArchiveJob → ArchiveJob → Bool
index_before a b =
    before a.finished_at b.finished_at || (ties a.finished_at b.finished_at && ltb a.id b.id)

unfoldable pub select_next_crawl_job : ℕ → Jobs → Option ArchiveJob
select_next_crawl_job now js = first_by (is_crawlable now) crawl_before js

unfoldable pub select_next_index_job : Jobs → Option ArchiveJob
select_next_index_job js = first_by is_indexable index_before js
