-- ===== src/Operations/Decide.antt =====
-- apps/worker/src/operations_runtime.rs: `process_plan` from the question to the model on, and
-- `plan_container_restart`. The root-cause summary and the reasons of an escalation are not kept,
-- and of an audit row's target only the container of a restart, which the cooldown reads.
pub mod Guards
pub mod Restarts
pub mod Tests
use Prim.Native.String.{String}
use package.text.Mathlib.Text.{◌==◌ as str_eq}
use nopager.Prelude.{
  ℕ, ◌+◌, Bool, true, false, not, ◌&&◌, ◌||◌, Option, none, some, List, [], ◌∷◌, any, Text, text,
  text_eq, trim, ltb, ◌==◌, if◌then◌else◌, Result, ok, err,
}
use nopager.Core.Incident.{
  IncidentState, collecting_context, diagnosing, planning, repairing, waiting_approval, paused,
  state_eq,
}
use nopager.Connectors.Vercel.{is_text}
use nopager.Decision.{
  OperationsActionKind, observe_only, delegate_deployment_recovery, restart_service,
  restart_instance, escalate, external_http, verification_index, SelectedVerificationSignal,
  OperationsDecision,
}
use nopager.Policy.{
  SafetyMode, ActionRisk, PolicyDecision, allow, require_approval, block, decide_operations,
}
use nopager.Store.Schema.{
  Database, ActionRow, ActionStatus, RecordedDecision, AuditRow, empty_payload, find_row, add_audit,
  add_audit_event, insert_job,
}
use nopager.Store.Incidents.{transition_incident, escalate_incident}
use nopager.Store.Approval.{execute_key, has_incident}
use nopager.Store.Deployments.{IncidentWork, incident_work}
use nopager.Operations.Execute.{
  World, JobError, database, target_missing, target_mismatch, unknown_safety_mode,
  different_operation, no_provider, provider_failed, not_offered, Outcome, commit, done, step,
  mark_operation_status,
}
use nopager.Operations.Plan.{
  PlanRun, load, env_true, configured_container_target, deployment_recovery_configured,
  parse_safety_mode, recorded, policy_name, operations_input,
}

-- `created_at > now() - 5 minutes`, in seconds.
abbrev pub is_recent_restart : ℕ → Text → ℕ → AuditRow → Bool
is_recent_restart project target now row =
    row.project_id == project
    && (str_eq row.action "operations.runtime_helper.restart_container"
        && (is_text row.target target
            && (str_eq row.outcome "success" && ltb now (row.created_at + 300))))

unfoldable pub restart_cooldown_clear : ℕ → Text → Database → Bool
restart_cooldown_clear project target db =
    not (any (is_recent_restart project target db.clock) db.audits)

abbrev new_action : IncidentWork → Text → OperationsDecision → PolicyDecision → ℕ → ActionRow
new_action work target decision policy id = record {
  id = id;
  incident_id = work.incident.id;
  action_kind = text "restart_container";
  target_id = some target;
  required_consecutive_successes = decision.required_consecutive_successes;
  policy_decision = recorded policy;
  status = ActionStatus.planned;
}

-- `INSERT … ON CONFLICT (incident_id) DO NOTHING`, then the row that was there before.
unfoldable pub persist_operation_action :
    IncidentWork
    → Text
    → OperationsDecision
    → PolicyDecision
    → Database
    → Result JobError (ℕ × Database)
persist_operation_action work target decision policy db =
    elim (find_row (has_incident work.incident.id) db.actions) [
      | none ↦ ok (
        db.next_id,
        record db {
          actions = new_action work target decision policy db.next_id ∷ db.actions;
          next_id = db.next_id + 1;
        },
      )
      | some a ↦
          if not (text_eq a.action_kind (text "restart_container"))
            || not (is_text a.target_id target)
          then err different_operation
          else ok (a.id, record db { next_id = db.next_id + 1 })
    ]

unfoldable pub enqueue_execute : IncidentWork → ℕ → Database → Database
enqueue_execute work id =
    insert_job (text "operations-execute") (execute_key work.incident.id id)
      (record empty_payload { incident_id = some work.incident.id; operation_action_id = some id })
      1 0

-- `match policy`
unfoldable pub by_policy : IncidentWork → ℕ → PolicyDecision → World → Outcome
by_policy work id allow w =
    commit
      (transition_incident
        (step work.incident planning repairing "policy-engine"
          "Low-risk container recovery allowed by experimental Autopilot")
        w.db)
      w (λ w1. done (record w1 { db = enqueue_execute work id w1.db }))
by_policy work id require_approval w =
    let w1 = record w { db = mark_operation_status id ActionStatus.approval_required w.db } in
    commit
      (transition_incident
        (step work.incident planning waiting_approval "policy-engine"
          "Safe Mode requires approval before the proposed production operation")
        w1.db)
      w1 done
by_policy work id block w =
    let w1 = record w { db = mark_operation_status id ActionStatus.blocked w.db } in
    if work.project.protection_paused
    then commit
        (transition_incident
          (step work.incident planning paused "policy-engine"
            "Kill Switch blocked the proposed production operation")
          w1.db)
        w1 done
    else commit (escalate_incident work.incident.id w1.db) w1 done

unfoldable pub policy_of : PlanRun → IncidentWork → Text → SafetyMode → Database → PolicyDecision
policy_of run work target mode db = decide_operations ActionRisk.low true (record {
  mode = mode;
  kill_switch_active = work.project.protection_paused;
  target_configured = true;
  action_enabled = env_true run.allow_restart;
  verification_configured = true;
  cooldown_clear = restart_cooldown_clear work.incident.project_id target db;
})

-- From `persist_operation_action` on.
unfoldable pub persist_and_act :
    IncidentWork → Text → OperationsDecision → PolicyDecision → World → Outcome
persist_and_act work target decision policy w =
    elim (persist_operation_action work target decision policy w.db) [
      | err e ↦ (err e, w)
      | ok (id, db) ↦ by_policy work id policy (record w {
        db =
            add_audit work.incident.project_id (some work.incident.id) "policy-engine"
              "operations.policy" (policy_name policy) db;
      })
    ]

-- After the incident has moved to PLANNING.
unfoldable pub plan_restart : PlanRun → IncidentWork → Text → OperationsDecision → World → Outcome
plan_restart run work target decision w = elim (parse_safety_mode work.project.safety_mode) [
  | none ↦ (err unknown_safety_mode, w)
  | some mode ↦ persist_and_act work target decision (policy_of run work target mode w.db) w
]

unfoldable pub selects_primary_health : OperationsDecision → Bool
selects_primary_health decision =
    any
      (λ (s : SelectedVerificationSignal).
        verification_index s.kind == verification_index external_http
        && text_eq s.source_id (text "primary_https_health"))
      decision.verification_signals

unfoldable pub plan_container_restart :
    PlanRun → IncidentWork → OperationsDecision → World → Outcome
plan_container_restart run work decision w = elim (configured_container_target run) [
  | none ↦ (err target_missing, w)
  | some configured ↦
      if not (text_eq (trim decision.target_id) configured)
      then (err target_mismatch, w)
      else if not (selects_primary_health decision)
      then commit (escalate_incident work.incident.id w.db) w done
      else commit
          (transition_incident
            (step work.incident diagnosing planning "operations-worker"
              "A bounded production operation was proposed")
            w.db)
          w (plan_restart run work configured decision)
]

unfoldable pub delegate : PlanRun → IncidentWork → World → Outcome
delegate run work w =
    if not (deployment_recovery_configured run)
    then commit (escalate_incident work.incident.id w.db) w done
    else done (record w {
      db =
          insert_job (text "diagnose")
            (record { family = text "diagnose"; parts = work.incident.id ∷ [] })
            (record empty_payload { incident_id = some work.incident.id }) 3 0
            (add_audit work.incident.project_id (some work.incident.id) "operations-worker"
              "operations.delegate_deployment_recovery" "success" w.db);
    })

-- `match decision.action`
unfoldable pub by_action :
    PlanRun → IncidentWork → OperationsDecision → OperationsActionKind → World → Outcome
by_action run work decision delegate_deployment_recovery w = delegate run work w
by_action run work decision observe_only w = commit (escalate_incident work.incident.id w.db) w done
by_action run work decision escalate w = commit (escalate_incident work.incident.id w.db) w done
by_action run work decision OperationsActionKind.restart_container w =
    plan_container_restart run work decision w
by_action run work decision restart_service w = (err not_offered, w)
by_action run work decision restart_instance w = (err not_offered, w)

abbrev pub plan_audit : IncidentWork → String → World → World
plan_audit work outcome w = record w {
  db =
      add_audit work.incident.project_id (some work.incident.id) "provider" "model.operations_plan"
        outcome w.db;
}

-- The incident is DIAGNOSING.
unfoldable pub decide_plan : PlanRun → IncidentWork → World → Outcome
decide_plan run work w = elim run.provider [
  | none ↦ (err no_provider, w)
  | some model ↦ elim (model (operations_input run work)) [
    | none ↦ (err provider_failed, plan_audit work "failed" w)
    | some decision ↦ by_action run work decision decision.action (plan_audit work "success" w)
  ]
]

unfoldable pub plan_step : PlanRun → IncidentWork → World → Outcome
plan_step run work w =
    if state_eq work.incident.status collecting_context
    then commit
        (transition_incident
          (step work.incident collecting_context diagnosing "operations-worker"
            "AI operations reasoning started")
          w.db)
        w (decide_plan run work)
    else if state_eq work.incident.status diagnosing
    then decide_plan run work w
    else done w

unfoldable pub process_plan : PlanRun → ℕ → World → Outcome
process_plan run incident w = load (incident_work incident w.db) w λ work. plan_step run work w
