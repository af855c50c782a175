-- ===== src/Production.antt =====
-- apps/worker/src/main.rs, production.rs and source_recovery.rs: what the worker does to production.
pub mod Discovery
pub mod Site
pub mod Revert
pub mod Rollback
pub mod Promotion
pub mod Durable
pub mod Recovery
pub mod Dispatch
pub mod Baseline
pub mod Examples
mod Tests
