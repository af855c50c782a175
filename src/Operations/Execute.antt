-- ===== src/Operations/Execute.antt =====
-- apps/worker/src/operations_runtime.rs: `process_execute` and `process_verify`. The world is the store
-- and `restart_calls`, a log of the helper calls by action id, newest first, which no code reads.
pub mod Calls
pub mod Silent
pub mod Decisions
pub mod Ids
pub mod Planning
pub mod Kept
pub mod Once
pub mod Steps
pub mod Guards
use Prim.Native.String.{String}
use nopager.Prelude.{
  ℕ, ◌+◌, min, max, Bool, true, false, not, ◌&&◌, ◌||◌, Option, none, some, List, [], ◌∷◌, Text,
  text, text_eq, ltb, ◌==◌, if◌then◌else◌, Result, ok, err,
}
use nopager.Protocol.{MutationDisposition, not_started, completed, ambiguous, RuntimeRequest}
use nopager.Core.Incident.{
  IncidentState, repairing, verifying_production, resolved, paused, state_eq,
}
use nopager.HelperClient.{
  RuntimeHelperError, mutation_disposition, RuntimeHelperClient, Wire, DockerRestartResult,
  restart_container,
}
use nopager.Store.Schema.{
  Database, DatabaseError, sqlx_error, IncidentRow, ProjectRow, ActionRow, ActionStatus, JobKey,
  Payload, empty_payload, find_row, update_rows, add_audit, add_audit_event, insert_job,
}
use nopager.Store.Incidents.{IncidentTransition, transition_incident, escalate_incident}
use nopager.Store.Approval.{with_incident}

pub record World : Type 0 where
  pub db : Database
  pub restart_calls : List ℕ

pub data JobError : Type 0 where
  database : DatabaseError → JobError
  target_missing unsupported_action target_mismatch unknown_safety_mode different_operation
        no_provider provider_failed not_offered :
      JobError

abbrev pub Outcome : Type 0
Outcome = Result JobError (Unit {0}) × World

-- `database.…(…).await?`: what was committed before stays.
abbrev pub commit : Result DatabaseError Database → World → (World → Outcome) → Outcome
commit (ok db) w k = k (record w { db = db })
commit (err e) w k = (err (database e), w)

abbrev pub done : World → Outcome
done w = (ok tt, w)

unfoldable pub mark_operation_status : ℕ → ActionStatus → Database → Database
mark_operation_status id status db = record db {
  actions = update_rows (λ a. a.id == id) (λ a. record a { status = status }) db.actions;
}

-- `WHERE id = … AND incident_id = …`
abbrev pub is_action : ℕ → ℕ → ActionRow → Bool
is_action id incident a = a.id == id && a.incident_id == incident

abbrev pub load_operation_action : ℕ → ℕ → Database → Result JobError (ActionRow × Text)
load_operation_action id incident db = elim (find_row (is_action id incident) db.actions) [
  | none ↦ err (database sqlx_error)
  | some a ↦ elim a.target_id [ none ↦ err target_missing | some target ↦ ok (a, target) ]
]

abbrev pub step : IncidentRow → IncidentState → IncidentState → String → String → IncidentTransition
step i from to actor message = record {
  project_id = i.project_id;
  incident_id = i.id;
  expected = from;
  next = to;
  actor = actor;
  message = message;
}

abbrev verify_key : ℕ → ℕ → ℕ → JobKey
verify_key incident action n = record {
  family = text "operations-verify";
  parts = incident ∷ action ∷ n ∷ [];
}

abbrev verify_payload : ℕ → ℕ → ℕ → Payload
verify_payload incident action n = record empty_payload {
  incident_id = some incident;
  operation_action_id = some action;
  check = some n;
}

unfoldable pub begin_verification : IncidentRow → ℕ → World → Outcome
begin_verification i action w =
    commit
      (transition_incident
        (step i repairing verifying_production "operations-worker"
          "Production operation executed; independently verifying recovery")
        w.db)
      w
      λ w'. done (record w' {
        db =
            insert_job (text "operations-verify") (verify_key i.id action 0)
              (verify_payload i.id action 0) 1 5 w'.db;
      })

-- The status and the outcome that `fail_closed_helper_execution` records.
abbrev pub failure_status : MutationDisposition → ActionStatus
failure_status not_started = ActionStatus.failed_closed
failure_status _ = ActionStatus.ambiguous

abbrev failure_outcome : MutationDisposition → String
failure_outcome not_started = "not_started"
failure_outcome _ = "unknown"

unfoldable pub fail_closed_helper_execution :
    IncidentRow → ℕ → Text → RuntimeHelperError → World → Outcome
unfolding mutation_disposition
fail_closed_helper_execution i action target error w =
    let disposition = mutation_disposition error in
    let db1 = mark_operation_status action (failure_status disposition) w.db in
    let db2 =
      add_audit_event i.project_id (some i.id) "operations-worker"
        "operations.runtime_helper.restart_container" (some target) (failure_outcome disposition)
        none db1 in
    let w1 = record w { db = db2 } in commit (escalate_incident i.id db2) w1 done

-- What follows `helper.restart_container(…)`.
pub after_restart :
    IncidentRow → ℕ → Text → Result RuntimeHelperError DockerRestartResult → World → Outcome
unfolding fail_closed_helper_execution begin_verification
after_restart i action target (err e) w = fail_closed_helper_execution i action target e w
after_restart i action target (ok r) w =
    let db1 = mark_operation_status action ActionStatus.executed w.db in
    let db2 =
      add_audit_event i.project_id (some i.id) "operations-worker"
        "operations.runtime_helper.restart_container" (some target) "success" none db1 in
    begin_verification i action (record w { db = db2 })

abbrev pub is_planned : ActionStatus → Bool
is_planned ActionStatus.planned = true
is_planned _ = false

-- How the helper is reached in one run: the client from the environment, and its socket.
pub record Link : Type 0 where
  pub client : Result RuntimeHelperError RuntimeHelperClient
  pub encoded_len : RuntimeRequest → ℕ
  pub wire : Wire

-- `match RuntimeHelperClient::from_environment()`
pub call_helper : Link → IncidentRow → ℕ → Text → World → Outcome
unfolding after_restart
call_helper link i action target w = elim link.client [
  | err e ↦ fail_closed_helper_execution i action target e w
  | ok client ↦
      after_restart i action target
        (restart_container link.encoded_len link.wire client action target)
        (record w { restart_calls = action ∷ w.restart_calls })
]

-- The claim: `UPDATE … SET status = 'RUNNING' WHERE … AND status = 'PLANNED'`.
pub claim_and_call : Link → IncidentRow → ℕ → Text → World → Outcome
unfolding call_helper
claim_and_call link i action target w =
    let mine = λ (a : ActionRow). is_action action i.id a && is_planned a.status in
    elim (find_row mine w.db.actions) [
      | none ↦ done w
      | some _ ↦ call_helper link i action target (record w {
        db = record (w.db) {
          actions =
              update_rows mine (λ a. record a { status = ActionStatus.running }) (w.db.actions);
        };
      })
    ]

-- `match action.status.as_str()`
pub by_status : Link → IncidentRow → ℕ → Text → ActionStatus → World → Outcome
unfolding claim_and_call begin_verification
by_status link i action target ActionStatus.executed w = begin_verification i action w
by_status link i action target ActionStatus.running w =
    let db1 = mark_operation_status action ActionStatus.ambiguous w.db in
    commit (escalate_incident i.id db1) (record w { db = db1 }) done
by_status link i action target ActionStatus.planned w = claim_and_call link i action target w
by_status link i action target _ w = done w

pub with_action : Link → IncidentRow → ℕ → World → Outcome
unfolding by_status
with_action link i action w = elim (load_operation_action action i.id w.db) [
  | err e ↦ (err e, w)
  | ok (a, target) ↦
      if not (text_eq a.action_kind (text "restart_container"))
      then (err unsupported_action, w)
      else by_status link i action target a.status w
]

unfoldable pub process_execute : Link → ℕ → ℕ → World → Outcome
unfolding with_action mark_operation_status
process_execute link incident action w =
    with_incident incident w.db (err (database sqlx_error), w)
      (λ i p.
        if not (state_eq i.status repairing)
        then done w
        else if p.protection_paused
        then (let db1 = mark_operation_status action ActionStatus.blocked w.db in
            commit
              (transition_incident
                (step i repairing paused "operations-worker"
                  "Kill Switch activated before production operation execution")
                db1)
              (record w { db = db1 }) done)
        else with_action link i action w)

abbrev is_executed : ActionStatus → Bool
is_executed ActionStatus.executed = true
is_executed _ = false

-- The end of `process_verify`, after both checks have succeeded.
pub recovered : IncidentRow → ActionRow → ℕ → World → Outcome
unfolding mark_operation_status
recovered i a check w =
    let required = max 2 (min 3 a.required_consecutive_successes) in
    let successes = check + 1 in
    if ltb successes required
    then done (record w {
      db =
          insert_job (text "operations-verify") (verify_key i.id a.id successes)
            (verify_payload i.id a.id successes) 1 10 w.db;
    })
    else (let db1 = mark_operation_status a.id ActionStatus.verified w.db in
        let db2 =
          add_audit i.project_id (some i.id) "operations-worker" "operations.recovery.verify"
            "success" db1 in
        commit
          (transition_incident
            (step i verifying_production resolved "operations-worker"
              "Production recovered and stayed healthy after the bounded container restart")
            db2)
          (record w { db = db2 }) done)

pub not_recovered : IncidentRow → ActionRow → World → Outcome
unfolding mark_operation_status
not_recovered i a w =
    let db1 = mark_operation_status a.id ActionStatus.verification_failed w.db in
    let db2 =
      add_audit i.project_id (some i.id) "operations-worker" "operations.recovery.verify" "failure"
        db1 in
    commit (escalate_incident i.id db2) (record w { db = db2 }) done

-- `health_ok` and `container_ok` are what the two probes find in this run.
unfoldable pub process_verify : (health_ok container_ok : Bool) → ℕ → ℕ → ℕ → World → Outcome
unfolding recovered not_recovered
process_verify health_ok container_ok incident action check w =
    with_incident incident w.db (err (database sqlx_error), w)
      (λ i p.
        if not (state_eq i.status verifying_production)
        then done w
        else elim (load_operation_action action i.id w.db) [
          | err e ↦ (err e, w)
          | ok (a, _) ↦
              if not (is_executed a.status)
              then commit (escalate_incident i.id w.db) w done
              else if not health_ok || not container_ok
              then not_recovered i a w
              else recovered i a check w
        ])
