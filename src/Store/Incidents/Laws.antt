-- ===== src/Store/Incidents/Laws.antt =====
-- The names of the states, and what a change of an incident leaves alone: crates/nopager-db/src/lib.rs.
use nopager.Prelude.{ℕ, ◌≤◌, ◌≡◌, refl, arith, some, Text, text_eq, ok}
use nopager.Core.Incident.{
  IncidentState, opened, collecting_context, diagnosing, planning, repairing, testing,
  preview_deploying, verifying_preview, waiting_approval, production_deploying,
  verifying_production, rolling_back, rolled_back, resolved, failed, escalated, cancelled, ignored,
  duplicate, paused,
}
use nopager.Store.Schema.{Database, insert_job, Payload, JobKey}
use nopager.Store.Incidents.{
  state_name, parse_state, transition_incident, escalate_incident, IncidentTransition,
}

-- Every state is read back from its name.
pub parse_state-state_name : (s : IncidentState) → parse_state (state_name s) ≡ some s
unfolding parse_state state_name text_eq
parse_state-state_name opened = refl
parse_state-state_name collecting_context = refl
parse_state-state_name diagnosing = refl
parse_state-state_name planning = refl
parse_state-state_name repairing = refl
parse_state-state_name testing = refl
parse_state-state_name preview_deploying = refl
parse_state-state_name verifying_preview = refl
parse_state-state_name waiting_approval = refl
parse_state-state_name production_deploying = refl
parse_state-state_name verifying_production = refl
parse_state-state_name rolling_back = refl
parse_state-state_name rolled_back = refl
parse_state-state_name resolved = refl
parse_state-state_name failed = refl
parse_state-state_name escalated = refl
parse_state-state_name cancelled = refl
parse_state-state_name ignored = refl
parse_state-state_name duplicate = refl
parse_state-state_name paused = refl

pub transition_incident-actions :
    (t : IncidentTransition) (db : Database) {db' : Database}
    → transition_incident t db ≡ ok db'
    → db'.actions ≡ db.actions
unfolding transition_incident
transition_incident-actions t db h = ground arith

pub escalate_incident-actions :
    (id : ℕ) (db : Database) {db' : Database}
    → escalate_incident id db ≡ ok db'
    → db'.actions ≡ db.actions
unfolding escalate_incident
escalate_incident-actions id db h = grind (arith, transition_incident-actions)

pub insert_job-actions :
    (type : Text) (key : JobKey) (p : Payload) (m delay : ℕ) (db : Database)
    → (insert_job type key p m delay db).actions ≡ db.actions
unfolding insert_job
insert_job-actions type key p m delay db = ground arith

pub transition_incident-next_id :
    (t : IncidentTransition) (db : Database) {db' : Database}
    → transition_incident t db ≡ ok db'
    → db'.next_id ≡ db.next_id
unfolding transition_incident
transition_incident-next_id t db h = ground arith

pub escalate_incident-next_id :
    (id : ℕ) (db : Database) {db' : Database}
    → escalate_incident id db ≡ ok db'
    → db'.next_id ≡ db.next_id
unfolding escalate_incident
escalate_incident-next_id id db h = grind (arith, transition_incident-next_id)

pub insert_job-next_id :
    (type : Text) (key : JobKey) (p : Payload) (m delay : ℕ) (db : Database)
    → db.next_id ≤ (insert_job type key p m delay db).next_id
unfolding insert_job
insert_job-next_id type key p m delay db = ground arith
