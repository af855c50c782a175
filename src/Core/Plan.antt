-- ===== src/Core/Plan.antt =====
-- crates/nopager-core/src/lib.rs: the operations plan and its validation. An `f32` is its sign and its
-- magnitude in units of 2 ^ -149, or no finite number.
pub mod Laws
use nopager.Prelude.{
  ℕ, ◌^◌, Bool, true, false, not, ◌&&◌, ◌||◌, Option, none, some, List, Text, text, trim, length,
  is_empty, any, byte_len, is_control, ltb, leb, ◌==◌, if◌then◌else◌, Result, ok, err, ◌>>◌,
  refuse_if, try_all,
}

pub data OperationsIncidentClass : Type 0 where
  service_health host_health capacity traffic_abuse edge_security dependency database
        deployment_regression unknown :
      OperationsIncidentClass

pub data OperationsAction : Type 0 where
  observe_only : OperationsAction
  restart_service restart_container restart_instance : (target_id : Text) → OperationsAction
  escalate : (reason : Text) → OperationsAction

pub data OperationsPlanError : Type 0 where
  invalid_confidence missing_evidence missing_verification invalid_verification :
      OperationsPlanError
  invalid_identifier invalid_text : (field : Text) → OperationsPlanError

unfoldable pub is_mutating : OperationsAction → Bool
is_mutating (restart_service _) = true
is_mutating (restart_container _) = true
is_mutating (restart_instance _) = true
is_mutating _ = false

unfoldable pub target_id : OperationsAction → Option Text
target_id (restart_service target) = some target
target_id (restart_container target) = some target
target_id (restart_instance target) = some target
target_id observe_only = none
target_id (escalate _) = none

-- The tests for a line feed and a carriage return are part of `is_control`, and are kept.
abbrev bad_identifier : Text → Bool
bad_identifier trimmed =
    is_empty trimmed
    || ltb 256 (byte_len trimmed)
    || any is_control trimmed
    || any (λ c. c == 10) trimmed
    || any (λ c. c == 13) trimmed

unfoldable pub validate_bounded_identifier : Text → Text → Result OperationsPlanError (Unit {0})
validate_bounded_identifier value field =
    refuse_if (bad_identifier (trim value)) (invalid_identifier field)

unfoldable pub validate_nonempty_bounded_text :
    Text → Text → ℕ → Result OperationsPlanError (Unit {0})
validate_nonempty_bounded_text value field max_chars =
    refuse_if (is_empty (trim value) || ltb max_chars (length value)) (invalid_text field)

validate_target : Option Text → Result OperationsPlanError (Unit {0})
unfolding validate_bounded_identifier
validate_target none = ok tt
validate_target (some target) = validate_bounded_identifier target (text "target_id")

validate_reason : OperationsAction → Result OperationsPlanError (Unit {0})
unfolding validate_nonempty_bounded_text
validate_reason (escalate reason) =
    validate_nonempty_bounded_text reason (text "escalation reason") 2000
validate_reason _ = ok tt

-- `OperationsAction::validate`
unfoldable pub validate_action : OperationsAction → Result OperationsPlanError (Unit {0})
unfolding validate_target validate_reason target_id
validate_action action = do validate_target (target_id action); validate_reason action

pub data VerificationSignalKind : Type 0 where
  external_http external_tcp service_status container_status instance_health error_rate
        resource_pressure traffic_health :
      VerificationSignalKind

pub record VerificationSignal : Type 0 where
  pub kind : VerificationSignalKind
  pub source_id : Text

pub record OperationsVerificationPlan : Type 0 where
  pub signals : List VerificationSignal
  pub required_consecutive_successes : ℕ  -- u8
  pub timeout_seconds : ℕ  -- u32

-- `OperationsVerificationPlan::validate`
unfoldable pub validate_verification :
    OperationsVerificationPlan → Result OperationsPlanError (Unit {0})
unfolding validate_bounded_identifier
validate_verification v = do
  refuse_if (is_empty v.signals || ltb 8 (length v.signals)) invalid_verification
  try_all (λ s. validate_bounded_identifier s.source_id (text "verification source_id")) v.signals
  refuse_if
      (not (leb 1 v.required_consecutive_successes && leb v.required_consecutive_successes 10)
        || not (leb 1 v.timeout_seconds && leb v.timeout_seconds 3600))
      invalid_verification

pub record OperationsEvidence : Type 0 where
  pub source : Text
  pub finding : Text

pub data F32 : Type 0 where
  not_finite : F32
  finite : (negative : Bool) → (units : ℕ) → F32

-- `is_finite() && (0.0..=1.0).contains(…)`; minus zero is in the range.
abbrev pub is_confidence : F32 → Bool
is_confidence not_finite = false
is_confidence (finite negative units) = units == 0 || (not negative && leb units (2 ^ 149))

pub record OperationsPlan : Type 0 where
  pub incident_class : OperationsIncidentClass
  pub summary : Text
  pub confidence : F32
  pub evidence : List OperationsEvidence
  pub action : OperationsAction
  pub verification : Option OperationsVerificationPlan
  pub rollback_or_fallback : Text

unfoldable pub validate_evidence : OperationsEvidence → Result OperationsPlanError (Unit {0})
unfolding validate_nonempty_bounded_text
validate_evidence e = do
  validate_nonempty_bounded_text e.source (text "evidence source") 256
  validate_nonempty_bounded_text e.finding (text "evidence finding") 8000

-- `match (&self.action, &self.verification)`
unfoldable pub validate_pair :
    OperationsAction → Option OperationsVerificationPlan → Result OperationsPlanError (Unit {0})
unfolding validate_verification is_mutating
validate_pair action (some verification) = validate_verification verification
validate_pair action none = refuse_if (is_mutating action) missing_verification

-- `OperationsPlan::validate`
unfoldable pub validate_plan : OperationsPlan → Result OperationsPlanError (Unit {0})
validate_plan p = do
  validate_nonempty_bounded_text p.summary (text "summary") 4000
  refuse_if (not (is_confidence p.confidence)) invalid_confidence
  refuse_if (is_empty p.evidence || ltb 32 (length p.evidence)) missing_evidence
  try_all validate_evidence p.evidence
  validate_action p.action
  validate_nonempty_bounded_text p.rollback_or_fallback (text "rollback/fallback plan") 4000
  validate_pair p.action p.verification
