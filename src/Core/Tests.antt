-- ===== src/Core/Tests.antt =====
-- Witnesses for the laws of incidents and plans (crates/nopager-core/src/lib.rs).
use nopager.Prelude.{◌≡◌, true, false, ◌↔◌, refl, arith, some, List, [], ◌∷◌, text, ok}
use nopager.Core.Incident.{
  IncidentState, planning, repairing, verifying_production, resolved, Incident, transition,
  can_transition_to,
}
use nopager.Core.Plan.{
  OperationsPlan, restart_service, finite, validate_plan, validate_nonempty_bounded_text,
  validate_evidence, validate_pair, validate_action, OperationsIncidentClass,
  VerificationSignalKind,
}
use nopager.Core.Plan.Laws.{IsValidPlan, validate_plan-ok_iff}
use nopager.Core.Incident.Reach.{Visits, transitions, resolved-needs-verification}

abbrev incident : IncidentState → Incident
incident s = record { id = 1; project_id = 1; title = text "down"; state = s; repair_attempts = 0 }

abbrev path : List IncidentState
path = repairing ∷ verifying_production ∷ resolved ∷ []

resolved-needs-verification_example : Visits verifying_production path
unfolding transitions transition can_transition_to
resolved-needs-verification_example =
    resolved-needs-verification (incident planning) (incident resolved) path (ground arith)
      (ground arith) (ground arith) (ground arith) refl refl

abbrev restart_plan : OperationsPlan
restart_plan = record {
  incident_class = OperationsIncidentClass.service_health;
  summary = text "configured service is unhealthy";
  confidence = finite false 1000;
  evidence = record { source = text "external_health"; finding = text "threshold crossed" } ∷ [];
  action = restart_service (text "checkout-api");
  verification = some (record {
    signals =
        record {
          kind = VerificationSignalKind.external_http;
          source_id = text "primary_https_health";
        }
        ∷ [];
    required_consecutive_successes = 2;
    timeout_seconds = 60;
  });
  rollback_or_fallback = text "escalate";
}

restart_plan-accepted : validate_plan restart_plan ≡ ok tt
unfolding validate_plan validate_nonempty_bounded_text validate_evidence validate_pair
    validate_action nopager.Prelude.trim nopager.Prelude.byte_len
restart_plan-accepted = refl

validate_plan-ok_iff_example : (validate_plan restart_plan ≡ ok tt) ↔ IsValidPlan restart_plan
validate_plan-ok_iff_example = validate_plan-ok_iff restart_plan
