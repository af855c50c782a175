-- ===== src/Monitor/Debouncer/History.antt =====
-- The debouncer (crates/nopager-monitor/src/lib.rs) against the history of the probes it has seen.
use nopager.Prelude.{
  ℕ, suc, ◌≤◌, min, Bool, true, false, not, ◌&&◌, ◌≡◌, arith, List, [], ◌∷◌, leb, if◌then◌else◌,
}
use nopager.Monitor.Debouncer.{
  CheckResult, success, failure, HealthTransition, incident_required, recovered, HealthDebouncer,
  new, is_down, observe,
}

-- The streaks at the head of a history, newest probe first.
abbrev pub failures : List CheckResult → ℕ
failures [] = 0
failures (failure ∷ h) = suc (failures h)
failures (success ∷ h) = 0

abbrev pub successes : List CheckResult → ℕ
successes [] = 0
successes (success ∷ h) = suc (successes h)
successes (failure ∷ h) = 0

-- Down begins with a streak of `ft` failures and ends with a streak of `rt` successes.
unfoldable pub was_down : ℕ → ℕ → List CheckResult → Bool
was_down ft rt [] = false
was_down ft rt (failure ∷ h) =
    let before = was_down ft rt h in if before then true else leb ft (failures (failure ∷ h))
was_down ft rt (success ∷ h) =
    let before = was_down ft rt h in
    if before then not (leb rt (successes (success ∷ h))) else false

-- The probes, oldest last, through `observe`.
unfoldable pub observe_all : HealthDebouncer → List CheckResult → HealthDebouncer
observe_all d [] = d
observe_all d (r ∷ h) = (observe (observe_all d h) r).0

record Tracks (ft rt : ℕ) (h : List CheckResult) (d : HealthDebouncer) : Type 0 where
  same_failure_threshold : d.failure_threshold ≡ ft
  same_recovery_threshold : d.recovery_threshold ≡ rt
  same_failures : d.consecutive_failures ≡ min 65535 (failures h)
  same_successes : d.consecutive_successes ≡ min 65535 (successes h)
  same_status : is_down d.status ≡ was_down ft rt h

observe-Tracks :
    (ft rt : ℕ) (h : List CheckResult) (d : HealthDebouncer) (r : CheckResult)
    → ft ≤ 65535
    → rt ≤ 65535
    → Tracks ft rt h d
    → Tracks ft rt (r ∷ h) (observe d r).0
unfolding observe was_down
observe-Tracks ft rt h d success p q t = ground arith
observe-Tracks ft rt h d failure p q t = ground arith

new-Tracks :
    (ft rt : ℕ) (h : List CheckResult)
    → ft ≤ 65535
    → rt ≤ 65535
    → Tracks ft rt h (observe_all (new ft rt) h)
unfolding observe_all new was_down
new-Tracks ft rt [] p q = ground arith
new-Tracks ft rt (r ∷ h) p q =
    observe-Tracks ft rt h (observe_all (new ft rt) h) r p q (new-Tracks ft rt h p q)

-- Whatever probes a debouncer with 16-bit thresholds has seen, it is down exactly if its history says
-- so: a streak of failures of at least the failure threshold, and no streak of successes of at least
-- the recovery threshold since. The saturation of the counters never shows.
pub observe_all-was_down :
    (ft rt : ℕ) (h : List CheckResult)
    → ft ≤ 65535
    → rt ≤ 65535
    → is_down (observe_all (new ft rt) h).status ≡ was_down ft rt h
observe_all-was_down ft rt h p q = (new-Tracks ft rt h p q).same_status

abbrev pub is_incident : HealthTransition → Bool
is_incident incident_required = true
is_incident _ = false

abbrev pub is_recovery : HealthTransition → Bool
is_recovery recovered = true
is_recovery _ = false

-- An incident is asked for exactly on the probe on which the history turns down, and a recovery is
-- reported exactly on the probe on which it stops being down.
pub observe-edges :
    (ft rt : ℕ) (h : List CheckResult) (r : CheckResult)
    → ft ≤ 65535
    → rt ≤ 65535
    → let t = (observe (observe_all (new ft rt) h) r).1 in
      (is_incident t ≡ (not (was_down ft rt h) && was_down ft rt (r ∷ h)))
      × (is_recovery t ≡ (was_down ft rt h && not (was_down ft rt (r ∷ h))))
unfolding observe was_down
observe-edges ft rt h success p q = ground (arith, new-Tracks ft rt h p q)
observe-edges ft rt h failure p q = ground (arith, new-Tracks ft rt h p q)
