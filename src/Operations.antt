-- ===== src/Operations.antt =====
-- apps/worker/src/operations_runtime.rs: the worker's production operations. `Plan` and `Decide` plan a
-- restart, `Execute` runs it through the host helper and checks the recovery.
pub mod Execute
pub mod Plan
pub mod Decide
mod KillSwitch
mod Tests
