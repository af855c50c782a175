-- ===== src/Operations/Decide/Guards.antt =====
-- When the planning job starts an operation on its own: apps/worker/src/operations_runtime.rs.
use Prim.Native.String.{String}
use nopager.Prelude.{
  ℕ, true, false, ◌≡◌, ◌≢◌, refl, sym, ◌∙◌, arith, Option, some, none, List, ◌∷◌, Text, text,
  text_eq, eq_of_text_eq, trim, Option-cases, Result-cases, Bool-cases, inl, inr, ok,
}
use nopager.Core.Incident.{diagnosing, collecting_context, planning, state_eq}
use nopager.Connectors.Vercel.{is_text}
use nopager.Decision.{
  OperationsActionKind, delegate_deployment_recovery, observe_only, escalate, restart_service,
  restart_instance, OperationsInput, OperationsDecision,
}
use nopager.Policy.{SafetyMode, PolicyDecision, allow, decide_operations}
use nopager.Store.Schema.{Database, AuditRow, JobRow, JobKey, Payload, count_rows, insert_job}
use nopager.Store.Incidents.{
  IncidentTransition, apply_transition, transition_incident, escalate_incident,
}
use nopager.Store.Deployments.{IncidentWork, incident_work}
use nopager.Operations.Execute.{World, step, mark_operation_status}
use nopager.Operations.Plan.{
  PlanRun, env_true, configured_container_target, parse_safety_mode, operations_input,
}
use nopager.Operations.Decide.{
  plan_audit, by_policy, policy_of, persist_and_act, plan_restart, selects_primary_health, delegate,
  plan_container_restart, by_action, decide_plan, plan_step, process_plan, restart_cooldown_clear,
  is_recent_restart, persist_operation_action,
}

-- The execution jobs in the queue.
unfoldable pub executions : List JobRow → ℕ
executions jobs = count_rows (λ j. text_eq j.job_type (text "operations-execute")) jobs

transition_incident-jobs :
    (t : IncidentTransition) (db : Database) {db' : Database}
    → transition_incident t db ≡ ok db'
    → db'.jobs ≡ db.jobs
unfolding transition_incident
transition_incident-jobs t db h = ground arith

escalate_incident-jobs :
    (id : ℕ) (db : Database) {db' : Database}
    → escalate_incident id db ≡ ok db'
    → db'.jobs ≡ db.jobs
unfolding escalate_incident
escalate_incident-jobs id db h = grind (arith, transition_incident-jobs)

untargeted-recent :
    (project : ℕ) (target : Text) (now : ℕ) (row : AuditRow)
    → row.target ≡ none
    → is_recent_restart project target now row ≡ false
unfolding is_text
untargeted-recent project target now row h = ground arith

transition_incident-audits :
    (t : IncidentTransition) (db : Database) {db' : Database}
    → transition_incident t db ≡ ok db'
    → (row : AuditRow) × (row.target ≡ none)
      × (db'.audits ≡ row ∷ db.audits)
      × (db'.clock ≡ db.clock)
unfolding transition_incident apply_transition
transition_incident-audits t db h = (
  record {
    project_id = t.project_id;
    incident_id = some t.incident_id;
    actor = t.actor;
    action = "incident.transition";
    target = none;
    outcome = "success";
    revert = none;
    created_at = db.clock;
  },
  refl,
  grind arith,
  grind arith,
)

transition_incident-cooldown :
    (t : IncidentTransition) (project : ℕ) (target : Text) (db : Database) {db' : Database}
    → transition_incident t db ≡ ok db'
    → restart_cooldown_clear project target db' ≡ restart_cooldown_clear project target db
unfolding restart_cooldown_clear
transition_incident-cooldown t project target db h =
    let (row, no_target, audits_eq, clock_eq) = transition_incident-audits t db h in
    grind (arith, untargeted-recent)

diagnose-executions :
    (key : JobKey) (p : Payload) (m delay : ℕ) (db : Database)
    → executions (insert_job (text "diagnose") key p m delay db).jobs ≡ executions db.jobs
unfolding executions insert_job count_rows text_eq
diagnose-executions key p m delay db = ground arith

module _ (work : IncidentWork) where
  by_policy-allow :
      (id : ℕ) (policy : PolicyDecision) (w : World)
      → executions (by_policy work id policy w).1.db.jobs ≢ executions w.db.jobs
      → policy ≡ allow
  unfolding by_policy mark_operation_status
  by_policy-allow id allow w h = refl
  by_policy-allow id PolicyDecision.require_approval w h =
      absurd (grind (arith, transition_incident-jobs))
  by_policy-allow id PolicyDecision.block w h =
      absurd (grind (arith, transition_incident-jobs, escalate_incident-jobs))

  persist_and_act-allow :
      (target : Text) (decision : OperationsDecision) (policy : PolicyDecision) (w : World)
      → executions (persist_and_act work target decision policy w).1.db.jobs ≢ executions w.db.jobs
      → policy ≡ allow
  unfolding persist_and_act persist_operation_action
  persist_and_act-allow target decision policy w h = grind (arith, by_policy-allow)

-- The conditions of an operation that needs no approval.
pub record IsAutonomous (run : PlanRun) (work : IncidentWork) (decision : OperationsDecision)
    (db : Database) : Type 0 where
  pub target : Text
  pub is_autopilot :
      parse_safety_mode work.project.safety_mode ≡ some SafetyMode.autopilot_experimental
  pub not_paused : work.project.protection_paused ≡ false
  pub is_enabled : env_true run.allow_restart ≡ true
  pub is_configured : configured_container_target run ≡ some target
  pub is_named : trim decision.target_id ≡ target
  pub is_verified : selects_primary_health decision ≡ true
  pub is_cool : restart_cooldown_clear work.incident.project_id target db ≡ true

policy_of-allow :
    (run : PlanRun) (work : IncidentWork) (target : Text) (mode : SafetyMode) (db : Database)
    → policy_of run work target mode db ≡ allow
    → (mode ≡ SafetyMode.autopilot_experimental)
      × (work.project.protection_paused ≡ false)
      × (env_true run.allow_restart ≡ true)
      × (restart_cooldown_clear work.incident.project_id target db ≡ true)
unfolding policy_of decide_operations
policy_of-allow run work target mode db h = ground arith

plan_restart-allow :
    (run : PlanRun) (work : IncidentWork) (target : Text) (decision : OperationsDecision)
    (w : World)
    → executions (plan_restart run work target decision w).1.db.jobs ≢ executions w.db.jobs
    → (parse_safety_mode work.project.safety_mode ≡ some SafetyMode.autopilot_experimental)
      × (work.project.protection_paused ≡ false)
      × (env_true run.allow_restart ≡ true)
      × (restart_cooldown_clear work.incident.project_id target w.db ≡ true)
unfolding plan_restart
plan_restart-allow run work target decision w h =
    elim (Option-cases (parse_safety_mode work.project.safety_mode)) [
      | inl e ↦ absurd (ground arith)
      | inr (mode, e) ↦
          let allowed =
            persist_and_act-allow work target decision (policy_of run work target mode w.db) w
              (grind arith) in
          let (is_autopilot, paused_eq, enabled_eq, cool_eq) =
            policy_of-allow run work target mode w.db allowed in
          (grind arith, paused_eq, enabled_eq, cool_eq)
    ]

-- The transition of a plan that has passed the checks.
abbrev proposal : IncidentWork → IncidentTransition
proposal work =
    step work.incident diagnosing planning "operations-worker"
      "A bounded production operation was proposed"

plan_container_restart-checked :
    (run : PlanRun) (work : IncidentWork) (decision : OperationsDecision) (w : World)
    (target : Text)
    → configured_container_target run ≡ some target
    → executions (plan_container_restart run work decision w).1.db.jobs ≢ executions w.db.jobs
    → (text_eq (trim decision.target_id) target ≡ true) × (selects_primary_health decision ≡ true)
unfolding plan_container_restart
plan_container_restart-checked run work decision w target e h =
    elim (Bool-cases (text_eq (trim decision.target_id) target)) [
      | inr other ↦ absurd (grind arith)
      | inl named ↦ elim (Bool-cases (selects_primary_health decision)) [
        | inl verified ↦ (named, verified)
        | inr unverified ↦ absurd (grind (arith, escalate_incident-jobs))
      ]
    ]

plan_container_restart-IsAutonomous :
    (run : PlanRun) (work : IncidentWork) (decision : OperationsDecision) (w : World)
    → executions (plan_container_restart run work decision w).1.db.jobs ≢ executions w.db.jobs
    → IsAutonomous run work decision w.db
unfolding plan_container_restart
plan_container_restart-IsAutonomous run work decision w h =
    elim (Option-cases (configured_container_target run)) [
      | inl e ↦ absurd (ground arith)
      | inr (target, e) ↦
          let (named, verified) = plan_container_restart-checked run work decision w target e h in
          elim (Result-cases (transition_incident (proposal work) w.db)) [
            | inl (error, failed) ↦ absurd (grind (arith, escalate_incident-jobs))
            | inr (db, moved) ↦
                let allowed =
                  plan_restart-allow run work target decision (record w { db = db })
                    (grind (arith, escalate_incident-jobs, transition_incident-jobs)) in
                let (is_autopilot, paused_eq, enabled_eq, cool_eq) = allowed in
                record {
                  target = target;
                  is_autopilot = is_autopilot;
                  not_paused = paused_eq;
                  is_enabled = enabled_eq;
                  is_configured = e;
                  is_named = eq_of_text_eq (trim decision.target_id) target named;
                  is_verified = verified;
                  is_cool = grind (arith, transition_incident-cooldown);
                }
          ]
    ]

by_action-IsAutonomous :
    (run : PlanRun) (work : IncidentWork) (decision : OperationsDecision)
    (kind : OperationsActionKind) (w : World)
    → executions (by_action run work decision kind w).1.db.jobs ≢ executions w.db.jobs
    → (kind ≡ OperationsActionKind.restart_container) × IsAutonomous run work decision w.db
unfolding by_action delegate
by_action-IsAutonomous run work decision OperationsActionKind.restart_container w h =
    (refl, plan_container_restart-IsAutonomous run work decision w h)
by_action-IsAutonomous run work decision delegate_deployment_recovery w h =
    absurd (grind (arith, diagnose-executions, escalate_incident-jobs))
by_action-IsAutonomous run work decision observe_only w h =
    absurd (grind (arith, escalate_incident-jobs))
by_action-IsAutonomous run work decision escalate w h =
    absurd (grind (arith, escalate_incident-jobs))
by_action-IsAutonomous run work decision restart_service w h = absurd (ground arith)
by_action-IsAutonomous run work decision restart_instance w h = absurd (ground arith)

IsAutonomous-db :
    {run : PlanRun} {work : IncidentWork} {decision : OperationsDecision} {db db' : Database}
    → ((project : ℕ) (target : Text)
        → restart_cooldown_clear project target db' ≡ restart_cooldown_clear project target db)
    → IsAutonomous run work decision db'
    → IsAutonomous run work decision db
IsAutonomous-db {work} same h = record {
  target = h.target;
  is_autopilot = h.is_autopilot;
  not_paused = h.not_paused;
  is_enabled = h.is_enabled;
  is_configured = h.is_configured;
  is_named = h.is_named;
  is_verified = h.is_verified;
  is_cool = sym (same work.incident.project_id h.target) ∙ h.is_cool;
}

-- The model has asked for a restart that meets the conditions.
pub record IsPlanned (run : PlanRun) (work : IncidentWork) (db : Database) : Type 0 where
  pub model : OperationsInput → Option OperationsDecision
  pub decision : OperationsDecision
  pub is_provider : run.provider ≡ some model
  pub is_answer : model (operations_input run work) ≡ some decision
  pub is_restart : decision.action ≡ OperationsActionKind.restart_container
  pub is_autonomous : IsAutonomous run work decision db

plan_audit-cooldown :
    (work : IncidentWork) (outcome : String) (w : World) (project : ℕ) (target : Text)
    → restart_cooldown_clear project target (plan_audit work outcome w).db
      ≡ restart_cooldown_clear project target w.db
unfolding restart_cooldown_clear is_text
plan_audit-cooldown work outcome w project target = ground arith

decide_plan-IsPlanned :
    (run : PlanRun) (work : IncidentWork) (w : World)
    → executions (decide_plan run work w).1.db.jobs ≢ executions w.db.jobs
    → IsPlanned run work w.db
unfolding decide_plan
decide_plan-IsPlanned run work w h = elim (Option-cases run.provider) [
  | inl none_given ↦ absurd (ground arith)
  | inr (model, given) ↦ elim (Option-cases (model (operations_input run work))) [
    | inl failed ↦ absurd (ground arith)
    | inr (decision, answered) ↦
        let (restart, autonomous) =
          by_action-IsAutonomous run work decision decision.action (plan_audit work "success" w)
            (grind arith) in
        record {
          model = model;
          decision = decision;
          is_provider = given;
          is_answer = answered;
          is_restart = restart;
          is_autonomous = IsAutonomous-db (plan_audit-cooldown work "success" w) autonomous;
        }
  ]
]

-- The first transition of the planning job.
abbrev reasoning : IncidentWork → IncidentTransition
reasoning work =
    step work.incident collecting_context diagnosing "operations-worker"
      "AI operations reasoning started"

plan_step-IsPlanned :
    (run : PlanRun) (work : IncidentWork) (w : World)
    → executions (plan_step run work w).1.db.jobs ≢ executions w.db.jobs
    → IsPlanned run work w.db
unfolding plan_step
plan_step-IsPlanned run work w h =
    elim (Bool-cases (state_eq work.incident.status collecting_context)) [
      | inl opening ↦ elim (Result-cases (transition_incident (reasoning work) w.db)) [
        | inl (e, failed) ↦ absurd (ground arith)
        | inr (db, moved) ↦
            let planned =
              decide_plan-IsPlanned run work (record w { db = db })
                (grind (arith, transition_incident-jobs)) in
            record {
              model = planned.model;
              decision = planned.decision;
              is_provider = planned.is_provider;
              is_answer = planned.is_answer;
              is_restart = planned.is_restart;
              is_autonomous =
                  IsAutonomous-db
                    (λ project target.
                      transition_incident-cooldown (reasoning work) project target w.db moved)
                    planned.is_autonomous;
            }
      ]
      | inr moved_on ↦ elim (Bool-cases (state_eq work.incident.status diagnosing)) [
        | inl ready ↦ decide_plan-IsPlanned run work w (grind arith)
        | inr other ↦ absurd (ground arith)
      ]
    ]

-- The planning job puts an execution job in the queue only if the model, asked with the actions
-- that are configured, has named the configured container for a restart and the primary health
-- check as its verification, the project is in autopilot and not paused, restarts are enabled,
-- and the last restart is not recent.
pub process_plan-IsPlanned :
    (run : PlanRun) (incident : ℕ) (w : World)
    → executions (process_plan run incident w).1.db.jobs ≢ executions w.db.jobs
    → (work : IncidentWork) × (incident_work incident w.db ≡ ok work) × IsPlanned run work w.db
unfolding process_plan
process_plan-IsPlanned run incident w h = elim (Result-cases (incident_work incident w.db)) [
  | inl (e, failed) ↦ absurd (ground arith)
  | inr (work, loaded) ↦ (work, loaded, plan_step-IsPlanned run work w (grind arith))
]
