-- ===== src/Store/Approval.antt =====
-- crates/nopager-db/src/lib.rs: `approve_incident` and `reject_incident`. The part for deployments is
-- several transactions, so what the first has written stays where a later step fails.
pub mod Laws
use Prim.Native.String.{String}
use nopager.Prelude.{
  ℕ, Bool, true, false, not, ◌&&◌, ◌||◌, Option, none, some, List, [], ◌∷◌, Text, text, ◌==◌,
  if◌then◌else◌, Result, ok, err,
}
use nopager.Core.Incident.{
  IncidentState, repairing, waiting_approval, production_deploying, cancelled, state_eq,
}
use nopager.Store.Schema.{
  concurrent_incident_update, count_rows, Database, DatabaseError, sqlx_error,
  concurrent_incident_update, protection_paused, incident_not_awaiting_approval,
  incomplete_repair_attempt, IncidentRow, ProjectRow, ActionRow, ActionStatus, planned,
  approval_required, running, executed, verified, RecordedDecision, approved, JobKey, Payload,
  empty_payload, find_row, update_rows, add_event, add_audit, insert_job,
}
use nopager.Store.Incidents.{IncidentTransition, transition_incident}

abbrev pub Outcome : Type 0
Outcome = Result DatabaseError (Unit {0}) × Database

-- A transaction that is rolled back on an error, then the rest.
abbrev pub commit : Result DatabaseError Database → Database → (Database → Outcome) → Outcome
commit (ok db') db k = k db'
commit (err e) db k = (err e, db)

abbrev pub has_incident : ℕ → ActionRow → Bool
has_incident id a = a.incident_id == id

-- `policy_decision == "approved" && matches!(status, "PLANNED" | "RUNNING" | "EXECUTED" | "VERIFIED")`
abbrev pub is_underway : ActionStatus → Bool
is_underway planned = true
is_underway running = true
is_underway executed = true
is_underway verified = true
is_underway _ = false

abbrev pub is_approved : RecordedDecision → Bool
is_approved approved = true
is_approved _ = false

abbrev pub already_approved : ActionRow → Bool
already_approved a = is_approved a.policy_decision && is_underway a.status

abbrev pub already_rejected : ActionRow → Bool
already_rejected a = elim a.status [
  | ActionStatus.rejected ↦ elim a.policy_decision [ RecordedDecision.rejected ↦ true | _ ↦ false ]
  | _ ↦ false
]

abbrev pub awaits_approval : ActionStatus → Bool
awaits_approval approval_required = true
awaits_approval _ = false

abbrev pub execute_key : ℕ → ℕ → JobKey
execute_key incident action = record {
  family = text "operations-execute";
  parts = incident ∷ action ∷ [];
}

-- `UPDATE incidents SET status = … WHERE id = … AND project_id = … AND status = 'WAITING_APPROVAL'`
abbrev pub is_waiting : ℕ → ℕ → IncidentRow → Bool
is_waiting id project i =
    i.id == id && (i.project_id == project && state_eq i.status waiting_approval)

-- `UPDATE operations_actions SET … WHERE id = … AND status = 'APPROVAL_REQUIRED'`
unfoldable pub decide_action : ℕ → ActionStatus → RecordedDecision → Database → Database
decide_action id status decision db = record db {
  actions =
      update_rows (λ a. a.id == id && awaits_approval a.status)
        (λ a. record a { status = status; policy_decision = decision }) db.actions;
}

unfoldable pub move_incident : ℕ → ℕ → IncidentState → Database → Database
move_incident id project next db = record db {
  incidents = update_rows (is_waiting id project) (λ i. record i { status = next }) db.incidents;
}

-- From the statement that approves the action to the commit.
unfoldable pub approve_action : String → IncidentRow → ActionRow → Database → Database
approve_action actor i a db =
    let db1 = move_incident i.id i.project_id repairing (decide_action a.id planned approved db) in
    let db2 = add_event i.id actor "Production operation approved" db1 in
    let db3 = add_audit i.project_id (some i.id) actor "operations.approval" "approved" db2 in
    let db4 = add_audit i.project_id (some i.id) actor "incident.transition" "success" db3 in
    insert_job (text "operations-execute") (execute_key i.id a.id)
      (record empty_payload { incident_id = some i.id; operation_action_id = some a.id }) 1 0 db4

unfoldable pub reject_action : String → IncidentRow → ActionRow → Database → Database
reject_action actor i a db =
    let db1 =
      move_incident i.id i.project_id cancelled
        (decide_action a.id ActionStatus.rejected RecordedDecision.rejected db) in
    let db2 = add_event i.id actor "Production operation rejected by administrator" db1 in
    let db3 = add_audit i.project_id (some i.id) actor "operations.approval" "rejected" db2 in
    add_audit i.project_id (some i.id) actor "incident.transition" "success" db3

-- The two `JOIN`s: the incident of the action, and its project.
abbrev pub with_incident {ℓ} : {B : Type ℓ} → ℕ → Database → B → (IncidentRow → ProjectRow → B) → B
with_incident id db missing k = elim (find_row (λ i. i.id == id) db.incidents) [
  | none ↦ missing
  | some i ↦ elim (find_row (λ p. p.id == i.project_id) db.projects) [
    | none ↦ missing
    | some p ↦ k i p
  ]
]

unfoldable pub approve_deployment : String → IncidentRow → Database → Outcome
approve_deployment actor i db = elim i.current_attempt_id [
  | none ↦ (err incomplete_repair_attempt, db)
  | some attempt ↦ (
    ok tt,
    insert_job (text "production-action") (record { family = text "production"; parts = i.id ∷ [] })
        (record empty_payload {
          incident_id = some i.id;
          attempt_id = some attempt;
          action = some (text "promote");
        })
        5 0 db,
  )
]

-- The part with an `operations_actions` row.
unfoldable pub approve_operation :
    String → ActionRow → Database → IncidentRow → ProjectRow → Outcome
approve_operation actor a db i p =
    if p.protection_paused
    then (err protection_paused, db)
    else if not (awaits_approval a.status) || not (state_eq i.status waiting_approval)
    then (err incident_not_awaiting_approval, db)
    else if not (count_rows (is_waiting i.id i.project_id) db.incidents == 1)
    then (err concurrent_incident_update, db)
    else (ok tt, approve_action actor i a db)

abbrev pub deciding : IncidentRow → IncidentState → String → String → IncidentTransition
deciding i next actor message = record {
  project_id = i.project_id;
  incident_id = i.id;
  expected = waiting_approval;
  next = next;
  actor = actor;
  message = message;
}

-- The part without one.
unfoldable pub approve_repair : String → Database → IncidentRow → ProjectRow → Outcome
approve_repair actor db i p =
    if p.protection_paused
    then (err protection_paused, db)
    else if state_eq i.status waiting_approval
    then commit
        (transition_incident
          (deciding i production_deploying actor "Production deployment approved") db)
        db (approve_deployment actor i)
    else if state_eq i.status production_deploying
    then approve_deployment actor i db
    else (err incident_not_awaiting_approval, db)

unfoldable pub approve_incident : ℕ → String → Database → Outcome
approve_incident id actor db = elim (find_row (has_incident id) db.actions) [
  | some a ↦
      if already_approved a
      then (ok tt, db)
      else with_incident id db (err sqlx_error, db) (approve_operation actor a db)
  | none ↦ with_incident id db (err sqlx_error, db) (approve_repair actor db)
]

unfoldable pub reject_operation : String → ActionRow → Database → IncidentRow → Outcome
reject_operation actor a db i =
    if not (awaits_approval a.status) || not (state_eq i.status waiting_approval)
    then (err incident_not_awaiting_approval, db)
    else if not (count_rows (is_waiting i.id i.project_id) db.incidents == 1)
    then (err concurrent_incident_update, db)
    else (ok tt, reject_action actor i a db)

unfoldable pub reject_repair : String → Database → IncidentRow → ProjectRow → Outcome
reject_repair actor db i p =
    if not (state_eq i.status waiting_approval)
    then (err incident_not_awaiting_approval, db)
    else commit
        (transition_incident
          (deciding i cancelled actor "Production repair rejected by administrator") db)
        db (λ db'. (ok tt, db'))

unfoldable pub reject_incident : ℕ → String → Database → Outcome
reject_incident id actor db = elim (find_row (has_incident id) db.actions) [
  | some a ↦
      if already_rejected a then (ok tt, db) else elim (find_row (λ i. i.id == id) db.incidents) [
        | none ↦ (err sqlx_error, db)
        | some i ↦ reject_operation actor a db i
      ]
  | none ↦ with_incident id db (err sqlx_error, db) (reject_repair actor db)
]
