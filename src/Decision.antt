-- ===== src/Decision.antt =====
-- crates/nopager-providers/src/operations/types.rs: the contract between NoPager and the model. The
-- program offers actions and verification signals (`OperationsInput`); the model answers with an
-- `OperationsDecision`, which is checked against what was offered.
pub mod Offered
mod Tests
use nopager.Prelude.{
  ℕ, Bool, true, false, not, ◌&&◌, ◌||◌, Option, none, some, List, Text, text, text_eq, trim,
  length, is_empty, any, byte_len, is_control, ltb, leb, ◌==◌, if◌then◌else◌, Result, ok, err, ◌>>◌,
  refuse_if, try_all,
}
use nopager.Core.Plan.{F32, is_confidence}

pub data OperationsActionKind : Type 0 where
  observe_only delegate_deployment_recovery restart_service restart_container restart_instance
        escalate :
      OperationsActionKind

unfoldable pub is_mutating : OperationsActionKind → Bool
is_mutating restart_service = true
is_mutating restart_container = true
is_mutating restart_instance = true
is_mutating _ = false

unfoldable pub requires_target : OperationsActionKind → Bool
requires_target restart_service = true
requires_target restart_container = true
requires_target restart_instance = true
requires_target _ = false

-- The position of the constructor, for `==`.
abbrev pub kind_index : OperationsActionKind → ℕ
kind_index observe_only = 0
kind_index delegate_deployment_recovery = 1
kind_index restart_service = 2
kind_index restart_container = 3
kind_index restart_instance = 4
kind_index escalate = 5

pub data OperationsVerificationKind : Type 0 where
  external_http external_tcp service_status container_status instance_health error_rate
        resource_pressure traffic_health :
      OperationsVerificationKind

abbrev pub verification_index : OperationsVerificationKind → ℕ
verification_index external_http = 0
verification_index external_tcp = 1
verification_index service_status = 2
verification_index container_status = 3
verification_index instance_health = 4
verification_index error_rate = 5
verification_index resource_pressure = 6
verification_index traffic_health = 7

pub data OperationsValidationError : Type 0 where
  invalid_available_action invalid_confidence missing_evidence action_not_offered unexpected_target
        unexpected_escalation_reason invalid_verification verification_not_offered
        unexpected_verification :
      OperationsValidationError
  invalid_identifier invalid_text : (field : Text) → OperationsValidationError

abbrev Check : Type 0
Check = Result OperationsValidationError (Unit {0})

-- The tests for a line feed and a carriage return are part of `is_control`, and are kept.
unfoldable pub validate_identifier : Text → Text → Check
validate_identifier value field =
    let trimmed = trim value in
    refuse_if
      (is_empty trimmed
        || ltb 256 (byte_len trimmed)
        || any is_control trimmed
        || any (λ c. c == 10) trimmed
        || any (λ c. c == 13) trimmed)
      (invalid_identifier field)

unfoldable pub validate_text : Text → Text → ℕ → Check
validate_text value field max_chars =
    refuse_if (is_empty (trim value) || ltb max_chars (length value)) (invalid_text field)

pub record AvailableOperationsAction : Type 0 where
  pub kind : OperationsActionKind
  pub target_id : Option Text
  pub description : Text

pub record AvailableVerificationSignal : Type 0 where
  pub kind : OperationsVerificationKind
  pub source_id : Text
  pub description : Text

-- The fields that `validate` and `validate_against` read; the others are JSON for the prompt.
pub record OperationsInput : Type 0 where
  pub incident_summary : Text
  pub available_actions : List AvailableOperationsAction
  pub verification_signals : List AvailableVerificationSignal

-- `match (self.kind.requires_target(), self.target_id.as_deref())`
pub validate_offered_target : Bool → Option Text → Check
validate_offered_target true (some target) = validate_identifier target (text "available targetId")
validate_offered_target true none = err invalid_available_action
validate_offered_target false none = ok tt
validate_offered_target false (some _) = err invalid_available_action

-- `AvailableOperationsAction::validate`
unfoldable pub validate_available_action : AvailableOperationsAction → Check
validate_available_action a = do
  validate_text a.description (text "available action description") 2000
  validate_offered_target (requires_target a.kind) a.target_id

-- `AvailableVerificationSignal::validate`
unfoldable pub validate_available_signal : AvailableVerificationSignal → Check
validate_available_signal s = do
  validate_identifier s.source_id (text "verification sourceId")
  validate_text s.description (text "verification description") 2000

-- `OperationsInput::validate`
unfoldable pub validate_input : OperationsInput → Check
validate_input i = do
  validate_text i.incident_summary (text "incident summary") 4000
  refuse_if (is_empty i.available_actions || ltb 32 (length i.available_actions))
      invalid_available_action
  try_all validate_available_action i.available_actions
  refuse_if (ltb 32 (length i.verification_signals)) invalid_verification
  try_all validate_available_signal i.verification_signals

pub record SelectedVerificationSignal : Type 0 where
  pub kind : OperationsVerificationKind
  pub source_id : Text

pub record Evidence : Type 0 where
  pub source : Text
  pub finding : Text

-- The class of the incident is not checked.
pub record OperationsDecision : Type 0 where
  pub summary : Text
  pub confidence : F32
  pub evidence : List Evidence
  pub action : OperationsActionKind
  pub target_id : Text
  pub escalation_reason : Text
  pub verification_signals : List SelectedVerificationSignal
  pub required_consecutive_successes : ℕ  -- u8
  pub timeout_seconds : ℕ  -- u32
  pub rollback_or_fallback : Text

unfoldable pub validate_evidence : Evidence → Check
validate_evidence e = do
  validate_text e.source (text "evidence source") 256
  validate_text e.finding (text "evidence finding") 8000

unfoldable pub validate_target : OperationsActionKind → Text → Check
validate_target action target =
    if requires_target action
    then validate_identifier target (text "targetId")
    else refuse_if (not (is_empty target)) unexpected_target

abbrev pub matches_target : Text → Option Text → Bool
matches_target target none = is_empty target
matches_target target (some allowed) = text_eq allowed target

-- The closure of `action_offered`.
abbrev pub offers : OperationsActionKind → Text → AvailableOperationsAction → Bool
offers action target available =
    kind_index available.kind == kind_index action && matches_target target available.target_id

abbrev is_escalate : OperationsActionKind → Bool
is_escalate escalate = true
is_escalate _ = false

unfoldable pub validate_reason : OperationsActionKind → Text → Check
validate_reason action reason =
    if is_escalate action
    then validate_text reason (text "escalation reason") 2000
    else refuse_if (not (is_empty (trim reason))) unexpected_escalation_reason

unfoldable pub validate_verification :
    OperationsActionKind → List SelectedVerificationSignal → (successes timeout : ℕ) → Check
validate_verification action signals successes timeout =
    if is_mutating action
    then refuse_if
        (is_empty signals
          || not (leb 1 successes && leb successes 10)
          || not (leb 1 timeout && leb timeout 3600))
        invalid_verification
    else refuse_if (not (is_empty signals) || not (successes == 0) || not (timeout == 0))
        unexpected_verification

abbrev pub offers_signal : SelectedVerificationSignal → AvailableVerificationSignal → Bool
offers_signal selected available =
    verification_index available.kind == verification_index selected.kind
    && text_eq available.source_id selected.source_id

unfoldable pub validate_selected : OperationsInput → SelectedVerificationSignal → Check
validate_selected input selected = do
  validate_identifier selected.source_id (text "selected verification sourceId")
  refuse_if (not (any (offers_signal selected) input.verification_signals)) verification_not_offered

-- `OperationsDecision::validate_against`
unfoldable pub validate_against : OperationsDecision → OperationsInput → Check
validate_against d input = do
  validate_text d.summary (text "summary") 4000
  refuse_if (not (is_confidence d.confidence)) invalid_confidence
  refuse_if (is_empty d.evidence || ltb 32 (length d.evidence)) missing_evidence
  try_all validate_evidence d.evidence
  validate_text d.rollback_or_fallback (text "rollback/fallback") 4000
  validate_target d.action (trim d.target_id)
  refuse_if (not (any (offers d.action (trim d.target_id)) input.available_actions))
      action_not_offered
  validate_reason d.action d.escalation_reason
  validate_verification d.action d.verification_signals d.required_consecutive_successes
      d.timeout_seconds
  try_all (validate_selected input) d.verification_signals
