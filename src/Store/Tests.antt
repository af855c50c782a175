-- ===== src/Store/Tests.antt =====
-- Runs of the store and witnesses for its laws (crates/nopager-db/src/lib.rs).
use nopager.Prelude.{
  ℕ, ◌+◌, ◌≤◌, inl, inr, arith, Text, Option, Result, err, true, false, ◌≡◌, ◌≢◌, refl, none, some,
  [], ◌∷◌, text, text_eq, ok,
}
use nopager.Core.Incident.{waiting_approval, can_transition_to}
use nopager.Store.Schema.{
  Database, DatabaseError, DeploymentRow, healthy, ProjectRow, IncidentRow, ActionRow, ActionStatus,
  RecordedDecision, JobRow, JobStatus, JobKey, Payload, empty_payload, find_row, update_rows,
  count_rows, insert_job,
}
use nopager.Store.Incidents.{state_name, open_incident_tx, transition_incident}
use nopager.Store.Incidents.Unique.{active_count, open_incident_tx-active_count}
use nopager.Store.Approval.{
  approve_incident, approve_operation, approve_action, reject_incident, reject_operation,
  reject_action, decide_action, move_incident,
}
use nopager.Store.Approval.Laws.{
  approve_incident-approve_incident, approve_incident-reject_incident,
}
use nopager.Store.Health.History.{observe_rows, unprobed, observe_rows-down_by_history}
use nopager.Store.Health.{observe_row, is_down, record_health_observation}
use nopager.Store.Jobs.{next_job, claim_next, enqueue_after}
use nopager.Store.Jobs.Laws.{IsRunnable, claim_next_progress, claim_next-claim_next}

run_store : Unit {0}
unfolding approve_incident approve_operation approve_action reject_incident reject_operation
    reject_action decide_action move_incident find_row update_rows count_rows insert_job next_job
    claim_next enqueue_after observe_rows observe_row text_eq state_name
run_store = tt

abbrev project : ProjectRow
project = record { id = 1; is_active = true; safety_mode = text "SAFE"; protection_paused = false }

abbrev incident : IncidentRow
incident = record {
  id = 7;
  project_id = 1;
  deduplication_key = text "health:5";
  trigger_type = text "HEALTH_CHECK";
  status = waiting_approval;
  title = "down";
  autonomous_resolution = false;
  resolved_at = none;
  current_attempt_id = none;
}

abbrev action : ActionRow
action = record {
  id = 9;
  incident_id = 7;
  action_kind = text "restart_container";
  target_id = some (text "app");
  required_consecutive_successes = 2;
  policy_decision = RecordedDecision.require_approval;
  status = ActionStatus.approval_required;
}

abbrev job : ℕ → ℕ → JobRow
job id available = record {
  id = id;
  job_type = text "health-check";
  idempotency_key = record { family = text "health"; parts = id ∷ [] };
  payload = empty_payload;
  status = JobStatus.pending;
  attempt = 0;
  max_attempts = 3;
  available_at = available;
  locked_by = none;
}

abbrev db : Database
db = record {
  projects = project ∷ [];
  incidents = incident ∷ [];
  actions = action ∷ [];
  attempts = [];
  deployments = [];
  health_checks = [];
  jobs = job 2 40 ∷ job 1 30 ∷ [];
  events = [];
  audits = [];
  next_id = 10;
  clock = 50;
}

approve_incident-approve_incident_example :
    approve_incident 7 "bob" (approve_incident 7 "ann" db).1
    ≡ (ok tt, (approve_incident 7 "ann" db).1)
unfolding run_store
approve_incident-approve_incident_example =
    approve_incident-approve_incident 7 "ann" "bob" db {a = action} refl refl

approve_incident-reject_incident_example :
    ((approve_incident 7 "bob" (reject_incident 7 "ann" db).1).0 ≢ ok tt)
    × ((approve_incident 7 "bob" (reject_incident 7 "ann" db).1).1 ≡ (reject_incident 7 "ann" db).1)
unfolding run_store
approve_incident-reject_incident_example =
    approve_incident-reject_incident 7 "ann" "bob" db {a = action} refl refl

observe_rows-down_by_history_example :
    is_down (observe_rows unprobed (true ∷ false ∷ false ∷ false ∷ [])).status ≡ true
unfolding run_store
observe_rows-down_by_history_example =
    observe_rows-down_by_history (true ∷ false ∷ false ∷ false ∷ [])

-- One failed probe in the middle of a recovery, and one success is enough.
interrupted_recovery :
    is_down (observe_rows unprobed (true ∷ false ∷ true ∷ false ∷ false ∷ false ∷ [])).status
    ≡ false
unfolding run_store
interrupted_recovery = refl

claim_next_progress_example :
    (k : JobRow) × ((claim_next (text "w") db).0 ≡ some (record k { attempt = k.attempt + 1 }))
    × IsRunnable 50 k
    × (k.available_at ≤ 30)
claim_next_progress_example =
    claim_next_progress (text "w") db (job 1 30) (inr (inl refl))
      (record { is_waiting = inl refl; is_available = omega arith })

claim_next-claim_next_example : (job 2 40).id ≢ (job 1 30).id
unfolding run_store
claim_next-claim_next_example =
    claim_next-claim_next (text "w") (text "v") db {j = record (job 1 30) { attempt = 1 }}
      {k = record (job 2 40) { attempt = 1 }} refl refl

abbrev key : JobKey
key = record { family = text "health"; parts = 1 ∷ [] }

abbrev payload : Payload
payload = empty_payload

abbrev opened_key : Text
opened_key = text "health:6"

run_incidents : Unit {0}
unfolding find_row update_rows count_rows insert_job text_eq open_incident_tx transition_incident
    can_transition_to
run_incidents = tt

one_active : active_count 1 opened_key db ≤ 1
unfolding run_incidents
one_active = omega arith

abbrev tables : Result DatabaseError (Option ℕ × Database) → Database
tables (ok (_, db')) = db'
tables (err _) = db

abbrev opened_db : Database
opened_db = tables (open_incident_tx 1 opened_key (text "HEALTH_CHECK") "down" db)

open_incident_tx-active_count_example : active_count 1 opened_key opened_db ≤ 1
unfolding run_incidents
open_incident_tx-active_count_example =
    open_incident_tx-active_count 1 opened_key (text "HEALTH_CHECK") "down" db 1 opened_key
      {opened = some 10} {db' = opened_db} one_active refl

abbrev external : DeploymentRow
external = record {
  project_id = 1;
  provider_deployment_id = text "dpl_2";
  environment = text "production";
  commit_sha = text "c2";
  url = text "https://two.example";
  status = text "READY";
  known_good = false;
}

abbrev quiet_db : Database
quiet_db = record db {
  incidents = [];
  deployments = external ∷ [];
  health_checks =
      record {
        id = 5;
        project_id = 1;
        consecutive_failures = 0;
        consecutive_successes = 4;
        status = healthy;
      }
      ∷ [];
}

abbrev observed : Result DatabaseError (Option ℕ × Database)
observed = record_health_observation 5 1 (text "health:5") "down" true quiet_db
