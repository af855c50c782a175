-- ===== src/Operations/Plan.antt =====
-- apps/worker/src/operations_runtime.rs: `should_handle`, `process_context` and the first half of
-- `process_plan`, up to the question to the model. The environment, the answers of the helper and the
-- decision of the model are those of one run; the JSON of the prompt and of the plan is not kept.
use Prim.Native.String.{String}
use nopager.Prelude.{
  ℕ, Bool, false, not, ◌&&◌, ◌||◌, Option, none, some, List, [], ◌∷◌, ◌++◌, map, Text, text,
  text_eq, trim, is_empty, is_some, to_ascii_lowercase, ◌==◌, if◌then◌else◌, Result, ok, err,
}
use nopager.Protocol.{ContainerState}
use nopager.Core.Incident.{opened, collecting_context, state_eq}
use nopager.Decision.{
  OperationsActionKind, observe_only, delegate_deployment_recovery, escalate,
  OperationsVerificationKind, external_http, container_status, AvailableOperationsAction,
  AvailableVerificationSignal, OperationsInput, OperationsDecision,
}
use nopager.HelperClient.{inspect_container}
use nopager.Policy.{SafetyMode, PolicyDecision, allow, require_approval, block}
use nopager.Store.Schema.{
  Database, DatabaseError, sqlx_error, RecordedDecision, empty_payload, find_row, insert_job,
}
use nopager.Store.Incidents.{transition_incident}
use nopager.Store.Deployments.{IncidentWork, incident_work}
use nopager.Operations.Execute.{World, database, Outcome, Link, commit, done, step}

-- What one run of the planning job is given.
pub record PlanRun : Type 0 where
  pub allow_restart : Option Text  -- NOPAGER_ALLOW_CONTAINER_RESTART
  pub docker_target : Option Text  -- NOPAGER_DOCKER_TARGET
  pub link : Link
  pub request_id : ℕ
  pub repo_owner : Text
  pub repo_name : Text
  pub vercel_project_id : Option Text
  pub has_github_metadata : Bool
  pub provider : Option (OperationsInput → Option OperationsDecision)

abbrev pub load {ℓ} : {A : Type ℓ} → Result DatabaseError A → World → (A → Outcome) → Outcome
load (err e) w k = (err (database e), w)
load (ok a) w k = k a

unfoldable pub should_handle : ℕ → Database → Result DatabaseError Bool
should_handle incident db = elim (find_row (λ i. i.id == incident) db.incidents) [
  | none ↦ err sqlx_error
  | some i ↦ ok (text_eq i.trigger_type (text "HEALTH_CHECK"))
]

unfoldable pub env_true : Option Text → Bool
env_true none = false
env_true (some value) =
    let v = map to_ascii_lowercase (trim value) in
    text_eq v (text "1")
    || text_eq v (text "true")
    || text_eq v (text "yes")
    || text_eq v (text "on")

unfoldable pub configured_container_target : PlanRun → Option Text
configured_container_target run = elim run.docker_target [
  | none ↦ none
  | some value ↦ if is_empty (trim value) then none else some (trim value)
]

unfoldable pub deployment_recovery_configured : PlanRun → Bool
deployment_recovery_configured run =
    not (is_empty (trim run.repo_owner))
    && not (is_empty (trim run.repo_name))
    && elim run.vercel_project_id [ none ↦ false | some value ↦ not (is_empty (trim value)) ]
    && run.has_github_metadata

unfoldable pub parse_safety_mode : Text → Option SafetyMode
parse_safety_mode value =
    if text_eq value (text "safe")
    then some SafetyMode.safe
    else if text_eq value (text "autopilot_experimental")
        || text_eq value (text "autopilot-experimental")
    then some SafetyMode.autopilot_experimental
    else none

-- `policy_name`
abbrev pub recorded : PolicyDecision → RecordedDecision
recorded allow = RecordedDecision.allow
recorded require_approval = RecordedDecision.require_approval
recorded block = RecordedDecision.block

abbrev pub policy_name : PolicyDecision → String
policy_name allow = "allow"
policy_name require_approval = "require_approval"
policy_name block = "block"

unfoldable pub enqueue_plan : ℕ → Database → Database
enqueue_plan incident =
    insert_job (text "operations-plan")
      (record { family = text "operations-plan"; parts = incident ∷ [] })
      (record empty_payload { incident_id = some incident }) 3 0

unfoldable pub context_step : IncidentWork → World → Outcome
context_step work w =
    if state_eq work.incident.status opened
    then commit
        (transition_incident
          (step work.incident opened collecting_context "operations-worker"
            "Collecting bounded production operations evidence")
          w.db)
        w (λ w1. done (record w1 { db = enqueue_plan work.incident.id w1.db }))
    else if state_eq work.incident.status collecting_context
    then done (record w { db = enqueue_plan work.incident.id w.db })
    else done w

unfoldable pub process_context : ℕ → World → Outcome
process_context incident w = load (incident_work incident w.db) w λ work. context_step work w

-- `helper.inspect_container(target).await.ok()`
unfoldable pub container_state : PlanRun → Option ContainerState
container_state run = elim (configured_container_target run) [
  | none ↦ none
  | some target ↦ elim run.link.client [
    | err _ ↦ none
    | ok client ↦
        elim (inspect_container run.link.encoded_len run.link.wire client run.request_id target) [
          | err _ ↦ none
          | ok state ↦ some state
        ]
  ]
]

abbrev action : OperationsActionKind → Option Text → Text → AvailableOperationsAction
action kind target description = record {
  kind = kind;
  target_id = target;
  description = description;
}

-- The container, if it is configured and the helper has answered.
abbrev offered_target : PlanRun → Option Text
offered_target run = if is_some (container_state run) then configured_container_target run else none

unfoldable pub available_actions : PlanRun → List AvailableOperationsAction
available_actions run =
    action observe_only none
      (text "Leave production unchanged when evidence is insufficient for a safe action")
    ∷ action escalate none
        (text "Escalate when the incident cannot be safely handled with configured capabilities")
    ∷ ((if deployment_recovery_configured run
          then action delegate_deployment_recovery none (
              text
                "Use the deployment-recovery subsystem only when a code or deployment regression is supported by evidence")
            ∷ []
          else [])
        ++ elim (offered_target run) [
          | none ↦ []
          | some target ↦
              if env_true run.allow_restart
              then action OperationsActionKind.restart_container (some target) (
                  text
                    "Restart exactly this immutable enrolled container through the deterministic host runtime helper")
                ∷ []
              else []
        ])

abbrev signal : OperationsVerificationKind → Text → Text → AvailableVerificationSignal
signal kind source description = record {
  kind = kind;
  source_id = source;
  description = description;
}

unfoldable pub verification_signals : PlanRun → List AvailableVerificationSignal
verification_signals run =
    signal external_http (text "primary_https_health")
      (text "Independent external HTTP production health check")
    ∷ elim (offered_target run) [
      | none ↦ []
      | some target ↦
          signal container_status (text "docker:" ++ target)
            (text "Configured Docker container runtime status")
          ∷ []
    ]

unfoldable pub operations_input : PlanRun → IncidentWork → OperationsInput
operations_input run work = record {
  incident_summary = text work.incident.title;
  available_actions = available_actions run;
  verification_signals = verification_signals run;
}
