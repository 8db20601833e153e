-- ===== src/Worker.antt =====
-- src/ha_backend/worker/main.py: the job worker. Its parts are the modules below.
pub mod Recovery
pub mod Failure
pub mod Backends
pub mod Pinned
pub mod Budget
pub mod Guards
pub mod Selection
pub mod Process
pub mod Orders
pub mod Queue
pub mod Stale
pub mod Steps
pub mod Promoted
