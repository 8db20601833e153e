-- ===== src/Contract.antt =====
-- src/ha_backend/archive_contract.py: the typed view of the JSON that a job stores as its config.
pub mod Policy
pub mod Options
pub mod Job
