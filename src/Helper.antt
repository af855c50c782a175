-- ===== src/Helper.antt =====
-- apps/runtime-helper/src/lib.rs: the privileged host helper. `Config` has the enrolment and its
-- checks, `Backend` the Docker boundary, `Journal` the durable record of claimed mutations, and
-- `Executor` the handling of one request.
pub mod Config
pub mod Backend
pub mod Journal
pub mod Executor
mod Tests
