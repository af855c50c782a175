-- ===== src/Monitor/Debouncer.antt =====
-- crates/nopager-monitor/src/lib.rs: `HealthDebouncer`. Its counters are `u16`s that saturate.
pub mod History
use nopager.Prelude.{ℕ, ◌+◌, min, Bool, true, false, not, ◌&&◌, leb, if◌then◌else◌}

pub data CheckResult : Type 0 where
  success failure : CheckResult

pub data HealthStatus : Type 0 where
  unknown healthy failing down : HealthStatus

pub data HealthTransition : Type 0 where
  none became_healthy incident_required recovered : HealthTransition

pub record HealthDebouncer : Type 0 where
  pub failure_threshold : ℕ
  pub recovery_threshold : ℕ
  pub consecutive_failures : ℕ
  pub consecutive_successes : ℕ
  pub status : HealthStatus

unfoldable pub new : ℕ → ℕ → HealthDebouncer
new failure_threshold recovery_threshold = record {
  failure_threshold = failure_threshold;
  recovery_threshold = recovery_threshold;
  consecutive_failures = 0;
  consecutive_successes = 0;
  status = unknown;
}

-- `u16::saturating_add(1)`
abbrev pub saturating_add_one : ℕ → ℕ
saturating_add_one n = min 65535 (n + 1)

abbrev pub is_down : HealthStatus → Bool
is_down down = true
is_down _ = false

abbrev pub is_unknown_or_failing : HealthStatus → Bool
is_unknown_or_failing unknown = true
is_unknown_or_failing failing = true
is_unknown_or_failing _ = false

observe_failure : HealthDebouncer → HealthDebouncer × HealthTransition
observe_failure d =
    let failures = saturating_add_one d.consecutive_failures in
    let d' = record d { consecutive_successes = 0; consecutive_failures = failures } in
    if not (is_down d.status) && leb d.failure_threshold failures
    then (record d' { status = down }, incident_required)
    else (if not (is_down d.status) then record d' { status = failing } else d', none)

observe_success : HealthDebouncer → HealthDebouncer × HealthTransition
observe_success d =
    let successes = saturating_add_one d.consecutive_successes in
    let d' = record d { consecutive_failures = 0; consecutive_successes = successes } in
    if is_down d.status && leb d.recovery_threshold successes
    then (record d' { status = healthy }, recovered)
    else if is_unknown_or_failing d.status
    then (record d' { status = healthy }, became_healthy)
    else (d', none)

unfoldable pub observe : HealthDebouncer → CheckResult → HealthDebouncer × HealthTransition
unfolding observe_failure observe_success
observe d failure = observe_failure d
observe d success = observe_success d
