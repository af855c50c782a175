-- ===== src/Core.antt =====
-- crates/nopager-core/src/lib.rs: the provider-independent domain model.
pub mod Incident
pub mod Plan
mod Tests
