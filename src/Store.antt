-- ===== src/Store.antt =====
-- crates/nopager-db/src/lib.rs: the PostgreSQL store. `Schema` has the tables, `Incidents` the life of
-- an incident, `Health` the health checks, `Approval` the administrator's decisions, `Jobs` the queue,
-- `Protection` the Kill Switch.
pub mod Schema
pub mod Rows
pub mod Incidents
pub mod Approval
pub mod Deployments
pub mod Health
pub mod Jobs
pub mod Protection
mod Tests
