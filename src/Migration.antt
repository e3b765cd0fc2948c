-- ===== src/Migration.antt =====
-- apps/web/src/lib/migrations: the migration framework for the persisted states of the stores.
pub mod Value
pub mod Orchestrator
pub mod Forward
pub mod Rollback
pub mod Settings
mod Tests
pub mod Storage
