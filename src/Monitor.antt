-- ===== src/Monitor.antt =====
-- crates/nopager-monitor: what wakes the operator. `Debouncer` turns probe results into incidents,
-- `Address` is the boundary against requests to inner networks, `Signal` the keys of incidents.
pub mod Debouncer
pub mod Address
pub mod Signal
mod Tests
