-- ===== src/Crawl.antt =====
-- src/archive_tool: the state of one crawl, the monitor that watches its log, and the strategies
-- that adapt it. Monotonic times are milliseconds.
pub mod State
pub mod TempDirs
pub mod Persist
pub mod Progress
pub mod Strategies
pub mod Monitor
pub mod LogLine
pub mod Intervene
pub mod Signals
pub mod Counts
pub mod Budget
pub mod Restart
