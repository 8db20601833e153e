-- ===== src/Lib.antt =====
-- A model of the backend of HealthArchive and of its crawler front end, and what makes them correct.
--
-- The program crawls health web sites, stores the captures as WARC files and makes them searchable.
-- A job is a row of a database. The worker (src/ha_backend/worker) takes one job after the other and
-- runs it (src/ha_backend/jobs.py) as a child process, archive_tool (src/archive_tool), which watches
-- the log of the crawl and adapts the crawl when it stalls. What is captured is searched by boolean
-- queries (src/ha_backend/search_query.py).
--
-- The files and the code they model:
--   Base          Boolean tests, lists, texts and integers as the source uses them.
--   Contract      src/ha_backend/archive_contract.py: the configuration that is stored on a job.
--   Rescue        src/ha_backend/crawl_rescue_status.py: the fallback status and its labels.
--   Infra         src/ha_backend/infra_errors.py: which exceptions mean that storage failed.
--   Jobs          src/ha_backend/jobs.py: the arguments of archive_tool, and run_persistent_job over a
--                 table of the rows of models.py.
--   Worker        src/ha_backend/worker/main.py: recovery, selection, guards, failure policy, loop.
--   Crawl         src/archive_tool/state.py, strategies.py, monitor.py, and of main.py the handling
--                 of a message of the monitor.
--   Query         src/ha_backend/search_query.py: tokens, parser, terms.
--   Dedup         src/ha_backend/indexing/deduplication.py: duplicate snapshots of one day.
--   Changes       src/ha_backend/changes.py and diffing.py: change events between captures, their
--                 backfill and the incremental computation.
--   Editions      src/ha_backend/annual_editions.py: the shards of an edition, its coverage report and
--                 the planning of shards.
--   Progress      src/ha_backend/indexing/progress.py: the reporter of indexing progress.
--   Recovery      scripts/vps-crawl-auto-recover.py: the state file, the circuit breaker and the options
--                 of a job that is recovered.
--   Tests         samples and runs.
--
-- A database session that commits is a function from the table to the table, and a session that
-- raises leaves the table as it was. What the code asks of the world (the clock, locks, logs, the
-- file system, the child process, the indexing pipeline, the profiles of the sources) is an argument,
-- by a record per component: Jobs.Run.World, Worker.Process.Iteration, Crawl.Persist.Disk,
-- Crawl.Strategies.Network, Changes.Pair.Pages (WARC records, HTML, difflib), Editions.Shards.Outside,
-- Progress.Moment, Recovery.Options.Registry. Times are natural numbers: seconds in the database,
-- milliseconds in the crawl, microseconds in the state file of the recovery. Counters that a JSON file
-- can hold are integers; the table's counters are natural numbers.
-- An operation of CrawlState runs under its lock or in one thread, so a crawl is a list of whole
-- operations in any order (Crawl.Budget.run_events).
--
-- Loops on fuel: the parser recurses on fuel, and one more than the number of tokens is enough; the
-- tokenizer's rounds are the number of characters of the text. The walk over an exception chain
-- takes its rounds as an argument, and one more than the number of exceptions is enough.
--
-- Not modelled: the command line and the API, the database layer, Docker and the stage loop of
-- archive_tool, reading of WARC files and HTML, ranking, reports and metrics, the contents of the files
-- that a coverage report writes, and of the scripts what looks at processes, mounts and units. They are
-- input, output or calls of third-party libraries. The canonical form of URLs is left for later.
pub mod Base
pub mod Contract
pub mod Rescue
pub mod Infra
pub mod Jobs
pub mod Worker
pub mod Crawl
pub mod Query
pub mod Dedup
pub mod Changes
pub mod Editions
pub mod Progress
pub mod Recovery
mod Tests
