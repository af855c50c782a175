-- ===== src/Store/Incidents.antt =====
-- crates/nopager-db/src/lib.rs: `state_name`, `parse_state`, `open_incident_tx`,
-- `transition_incident` and `escalate_incident`.
pub mod Laws
pub mod Unique
use Prim.Native.String.{String}
use package.text.Mathlib.Text.{◌==◌ as str_eq}
use nopager.Prelude.{
  ℕ, ◌+◌, Bool, true, false, not, ◌&&◌, ◌||◌, Option, none, some, List, [], ◌∷◌, Text, text,
  text_eq, any, is_some, ◌==◌, if◌then◌else◌, Result, ok, err,
}
use nopager.Core.Incident.{
  IncidentState, opened, collecting_context, diagnosing, planning, repairing, testing,
  preview_deploying, verifying_preview, waiting_approval, production_deploying,
  verifying_production, rolling_back, rolled_back, resolved, failed, escalated, cancelled, ignored,
  duplicate, paused, state_eq, can_transition_to,
}
use nopager.Store.Schema.{
  Database, DatabaseError, sqlx_error, invalid_transition, concurrent_incident_update, IncidentRow,
  ProjectRow, ActionRow, RecordedDecision, EventRow, JobKey, Payload, empty_payload, find_row,
  update_rows, count_rows, add_event, add_audit, insert_job,
}

unfoldable pub state_name : IncidentState → Text
state_name opened = text "OPEN"
state_name collecting_context = text "COLLECTING_CONTEXT"
state_name diagnosing = text "DIAGNOSING"
state_name planning = text "PLANNING"
state_name repairing = text "REPAIRING"
state_name testing = text "TESTING"
state_name preview_deploying = text "PREVIEW_DEPLOYING"
state_name verifying_preview = text "VERIFYING_PREVIEW"
state_name waiting_approval = text "WAITING_APPROVAL"
state_name production_deploying = text "PRODUCTION_DEPLOYING"
state_name verifying_production = text "VERIFYING_PRODUCTION"
state_name rolling_back = text "ROLLING_BACK"
state_name rolled_back = text "ROLLED_BACK"
state_name resolved = text "RESOLVED"
state_name failed = text "FAILED"
state_name escalated = text "ESCALATED"
state_name cancelled = text "CANCELLED"
state_name ignored = text "IGNORED"
state_name duplicate = text "DUPLICATE"
state_name paused = text "PAUSED"

-- `none` is `DatabaseError::UnknownIncidentState`.
unfoldable pub parse_state : Text → Option IncidentState
parse_state value =
    if text_eq value (text "OPEN")
    then some opened
    else if text_eq value (text "COLLECTING_CONTEXT")
    then some collecting_context
    else if text_eq value (text "DIAGNOSING")
    then some diagnosing
    else if text_eq value (text "PLANNING")
    then some planning
    else if text_eq value (text "REPAIRING")
    then some repairing
    else if text_eq value (text "TESTING")
    then some testing
    else if text_eq value (text "PREVIEW_DEPLOYING")
    then some preview_deploying
    else if text_eq value (text "VERIFYING_PREVIEW")
    then some verifying_preview
    else if text_eq value (text "WAITING_APPROVAL")
    then some waiting_approval
    else if text_eq value (text "PRODUCTION_DEPLOYING")
    then some production_deploying
    else if text_eq value (text "VERIFYING_PRODUCTION")
    then some verifying_production
    else if text_eq value (text "ROLLING_BACK")
    then some rolling_back
    else if text_eq value (text "ROLLED_BACK")
    then some rolled_back
    else if text_eq value (text "RESOLVED")
    then some resolved
    else if text_eq value (text "FAILED")
    then some failed
    else if text_eq value (text "ESCALATED")
    then some escalated
    else if text_eq value (text "CANCELLED")
    then some cancelled
    else if text_eq value (text "IGNORED")
    then some ignored
    else if text_eq value (text "DUPLICATE")
    then some duplicate
    else if text_eq value (text "PAUSED")
    then some paused
    else none

-- The condition of the partial index `incidents_active_dedup_idx`.
abbrev pub is_active_state : IncidentState → Bool
is_active_state resolved = false
is_active_state rolled_back = false
is_active_state failed = false
is_active_state escalated = false
is_active_state cancelled = false
is_active_state ignored = false
is_active_state duplicate = false
is_active_state _ = true

abbrev pub is_active_for : ℕ → Text → IncidentRow → Bool
is_active_for project_id key i =
    i.project_id == project_id && text_eq i.deduplication_key key && is_active_state i.status

unfoldable pub open_incident_job : ℕ → Database → Database
open_incident_job id db =
    insert_job (text "incident-context")
      (record { family = text "incident-context"; parts = id ∷ [] })
      (record empty_payload { incident_id = some id }) 5 0 db

-- `open_incident_tx`; the last argument is `protection_paused` of the project.
unfoldable pub insert_incident : ℕ → Text → Text → String → Bool → Database → Option ℕ × Database
unfolding open_incident_job
insert_incident project_id key trigger_type title is_paused db =
    let id = db.next_id in
    let row : IncidentRow = record {
      id = id;
      project_id = project_id;
      deduplication_key = key;
      trigger_type = trigger_type;
      status = if is_paused then paused else opened;
      title = title;
      autonomous_resolution = false;
      resolved_at = none;
      current_attempt_id = none;
    } in
    let db1 = record db { incidents = row ∷ db.incidents; next_id = id + 1 } in
    let db2 =
      add_audit project_id (some id) "worker" "incident.open" "success"
        (add_event id "worker" title db1) in
    (some id, if is_paused then db2 else open_incident_job id db2)

unfoldable pub open_incident_tx :
    ℕ → Text → Text → String → Database → Result DatabaseError (Option ℕ × Database)
unfolding insert_incident
open_incident_tx project_id key trigger_type title db =
    elim (find_row (is_active_for project_id key) db.incidents) [
      | some _ ↦ ok (none, db)
      | none ↦ elim (find_row (λ p. p.id == project_id) db.projects) [
        | none ↦ err sqlx_error
        | some p ↦ ok (insert_incident project_id key trigger_type title p.protection_paused db)
      ]
    ]

pub record IncidentTransition : Type 0 where
  pub project_id : ℕ
  pub incident_id : ℕ
  pub expected : IncidentState
  pub next : IncidentState
  pub actor : String
  pub message : String

-- `WHERE id = $2 AND project_id = $3 AND status = $4`
abbrev pub is_expected : IncidentTransition → IncidentRow → Bool
is_expected t i =
    i.id == t.incident_id && (i.project_id == t.project_id && state_eq i.status t.expected)

abbrev is_approved : RecordedDecision → Bool
is_approved RecordedDecision.approved = true
is_approved _ = false

-- The two `NOT EXISTS` of `autonomous_resolution`.
unfoldable pub no_approval : ℕ → Database → Bool
no_approval id db =
    not (
      any
        (λ e.
          e.incident_id == id
          && (str_eq e.actor "api-admin" && str_eq e.message "Production deployment approved"))
        db.events)
    && not (any (λ a. a.incident_id == id && is_approved a.policy_decision) db.actions)

-- The `SET` clause.
abbrev pub set_status : IncidentState → Bool → ℕ → IncidentRow → IncidentRow
set_status next autonomous now i = record i {
  status = next;
  resolved_at =
      if state_eq next resolved || state_eq next rolled_back then some now else i.resolved_at;
  autonomous_resolution = if state_eq next resolved then autonomous else i.autonomous_resolution;
}

-- The update is refused by `incidents_active_dedup_idx` where it makes a second row active.
abbrev pub breaks_index : IncidentTransition → IncidentRow → Database → Bool
breaks_index t i db =
    not (is_active_state t.expected)
    && is_active_state t.next
    && is_some (find_row (is_active_for t.project_id i.deduplication_key) db.incidents)

unfoldable pub apply_transition : IncidentTransition → Database → Database
unfolding no_approval
apply_transition t db =
    let autonomous = no_approval t.incident_id db in
    let db1 = record db {
      incidents = update_rows (is_expected t) (set_status t.next autonomous db.clock) db.incidents;
    } in
    add_audit t.project_id (some t.incident_id) t.actor "incident.transition" "success"
      (add_event t.incident_id t.actor t.message db1)

unfoldable pub transition_incident : IncidentTransition → Database → Result DatabaseError Database
unfolding apply_transition
transition_incident t db =
    if not (can_transition_to t.expected t.next)
    then err (invalid_transition t.expected t.next)
    else elim (find_row (is_expected t) db.incidents) [
      | none ↦ err concurrent_incident_update
      | some i ↦ if breaks_index t i db then err sqlx_error else ok (apply_transition t db)
    ]

-- The early return of `escalate_incident`.
abbrev is_closed_state : IncidentState → Bool
is_closed_state resolved = true
is_closed_state rolled_back = true
is_closed_state escalated = true
is_closed_state failed = true
is_closed_state cancelled = true
is_closed_state _ = false

-- `incident_work` finds the row, or the statement fails.
unfoldable pub escalate_incident : ℕ → Database → Result DatabaseError Database
unfolding transition_incident
escalate_incident id db = elim (find_row (λ i. i.id == id) db.incidents) [
  | none ↦ err sqlx_error
  | some i ↦
      if is_closed_state i.status
      then ok db
      else transition_incident
          (record {
            project_id = i.project_id;
            incident_id = id;
            expected = i.status;
            next = escalated;
            actor = "worker";
            message = "NoPager could not safely complete the repair";
          })
          db
]
