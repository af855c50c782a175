-- ===== src/Monitor/Tests.antt =====
-- Runs of the monitor and witnesses for its laws (crates/nopager-monitor).
use nopager.Prelude.{
  ℕ, true, ◌≡◌, refl, ◌↔◌, arith, List, [], ◌∷◌, text, trim, if◌then◌else◌, ok, err,
}
use nopager.Monitor.Debouncer.{CheckResult, success, failure, new, is_down, observe}
use nopager.Monitor.Debouncer.History.{observe_all, was_down, observe_all-was_down}
use nopager.Monitor.Address.{non_public_target, validate_public_ip}
use nopager.Monitor.Address.Ranges.{dotted, is_special, validate_public_ip-dotted}
use nopager.Monitor.Signal.{
  OperationalSignal, ProtectedResourceIdentity, http_health, normalize_key_part, incident_key,
}
use nopager.Monitor.Signal.Keys.{IsPlain, SameCondition, incident_key_iff}

abbrev three_failures : List CheckResult
three_failures = failure ∷ failure ∷ failure ∷ success ∷ []

three_failures_wake : is_down (observe_all (new 3 2) three_failures).status ≡ true
unfolding observe_all new observe
three_failures_wake = refl

observe_all-was_down_example :
    is_down (observe_all (new 3 2) three_failures).status ≡ was_down 3 2 three_failures
observe_all-was_down_example = observe_all-was_down 3 2 three_failures (omega arith) (omega arith)

validate_public_ip-dotted_example :
    validate_public_ip (dotted 169 254 169 254)
    ≡ (if is_special 169 254 169 then err non_public_target else ok tt)
validate_public_ip-dotted_example =
    validate_public_ip-dotted 169 254 169 254 (omega arith) (omega arith) (omega arith)
      (omega arith)

abbrev api : ProtectedResourceIdentity
api = record { provider = text "generic"; resource_type = text "service"; resource_id = text "api" }

abbrev probe : ℕ → OperationalSignal
probe time = record {
  resource = api;
  kind = http_health;
  source_id = text "primary_https_health";
  observed_at_unix_ms = time;
  failing = true;
}

api-IsPlain : IsPlain api
unfolding normalize_key_part trim
api-IsPlain = omega arith

incident_key_iff_example :
    (incident_key (probe 1000) ≡ incident_key (probe 2000))
    ↔ SameCondition (probe 1000) (probe 2000)
incident_key_iff_example = incident_key_iff (probe 1000) (probe 2000) api-IsPlain api-IsPlain
