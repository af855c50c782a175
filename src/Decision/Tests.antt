-- ===== src/Decision/Tests.antt =====
-- Witnesses for the contract of a decision (crates/nopager-providers/src/operations/types.rs).
use nopager.Prelude.{false, refl, none, some, [], ◌∷◌, text, text_eq, trim, byte_len}
use nopager.Core.Plan.{finite}
use nopager.Decision.{
  OperationsActionKind, OperationsVerificationKind, OperationsInput, OperationsDecision,
  validate_against, validate_text, validate_evidence, validate_target, validate_reason,
  validate_verification, validate_selected, validate_identifier, is_mutating, requires_target,
}
use nopager.Decision.Offered.{
  IsBounded, IsInert, validate_against-IsBounded, validate_against-IsInert,
}

run_decision : Unit {0}
unfolding validate_against validate_text validate_evidence validate_target validate_reason
    validate_verification validate_selected validate_identifier is_mutating requires_target text_eq
    trim byte_len
run_decision = tt

abbrev input : OperationsInput
input = record {
  incident_summary = text "production health check is down";
  available_actions =
      record {
        kind = OperationsActionKind.restart_container;
        target_id = some (text "checkout-api");
        description = text "Restart the configured checkout container";
      }
      ∷ record {
        kind = OperationsActionKind.escalate;
        target_id = none;
        description = text "Ask the owner for help";
      }
      ∷ [];
  verification_signals =
      record {
        kind = OperationsVerificationKind.external_http;
        source_id = text "primary_https_health";
        description = text "The health check";
      }
      ∷ [];
}

abbrev restart : OperationsDecision
restart = record {
  summary = text "The container is down";
  confidence = finite false 1000;
  evidence = record { source = text "health"; finding = text "three failures" } ∷ [];
  action = OperationsActionKind.restart_container;
  target_id = text "checkout-api";
  escalation_reason = [];
  verification_signals =
      record {
        kind = OperationsVerificationKind.external_http;
        source_id = text "primary_https_health";
      }
      ∷ [];
  required_consecutive_successes = 2;
  timeout_seconds = 60;
  rollback_or_fallback = text "escalate";
}

abbrev ask : OperationsDecision
ask = record restart {
  action = OperationsActionKind.escalate;
  target_id = [];
  escalation_reason = text "need more evidence";
  verification_signals = [];
  required_consecutive_successes = 0;
  timeout_seconds = 0;
}

validate_against-IsBounded_example : IsBounded restart input
unfolding run_decision
validate_against-IsBounded_example = validate_against-IsBounded restart input refl refl

validate_against-IsInert_example : IsInert ask
unfolding run_decision
validate_against-IsInert_example = validate_against-IsInert ask input refl refl
