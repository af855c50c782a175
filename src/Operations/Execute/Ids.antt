-- ===== src/Operations/Execute/Ids.antt =====
-- The ids of the store only grow: the jobs of apps/worker/src/operations_runtime.rs, with
-- `approve_incident`, `reject_incident` and `set_protection_paused` of crates/nopager-db/src/lib.rs.
use Prim.Native.String.{String}
use nopager.Prelude.{ℕ, ◌≤◌, Bool, arith, Result, ok, err, Text}
use nopager.HelperClient.{RuntimeHelperError, DockerRestartResult, mutation_disposition}
use nopager.Store.Schema.{Database, IncidentRow, ActionRow, ActionStatus}
use nopager.Store.Incidents.Laws.{
  transition_incident-next_id, escalate_incident-next_id, insert_job-next_id,
}
use nopager.Store.Approval.{
  approve_incident, reject_incident, approve_action, reject_action, approve_deployment,
  decide_action, move_incident, approve_operation, approve_repair, reject_operation, reject_repair,
}
use nopager.Operations.Execute.{
  Link, World, mark_operation_status, begin_verification, fail_closed_helper_execution,
  after_restart, call_helper, claim_and_call, by_status, with_action, process_execute, recovered,
  not_recovered, process_verify,
}

begin_verification-next_id :
    (i : IncidentRow) (action : ℕ) (w : World)
    → w.db.next_id ≤ (begin_verification i action w).1.db.next_id
unfolding begin_verification
begin_verification-next_id i action w =
    grind (arith, transition_incident-next_id, insert_job-next_id)

fail_closed-next_id :
    (i : IncidentRow) (action : ℕ) (target : Text) (e : RuntimeHelperError) (w : World)
    → w.db.next_id ≤ (fail_closed_helper_execution i action target e w).1.db.next_id
unfolding fail_closed_helper_execution mutation_disposition mark_operation_status
fail_closed-next_id i action target e w = grind (arith, escalate_incident-next_id)

after_restart-next_id :
    (i : IncidentRow) (action : ℕ) (target : Text)
    (r : Result RuntimeHelperError DockerRestartResult) (w : World)
    → w.db.next_id ≤ (after_restart i action target r w).1.db.next_id
unfolding after_restart mark_operation_status
after_restart-next_id i action target (err e) w = fail_closed-next_id i action target e w
after_restart-next_id i action target (ok r) w = begin_verification-next_id i action _

call_helper-next_id :
    (link : Link) (i : IncidentRow) (action : ℕ) (target : Text) (w : World)
    → w.db.next_id ≤ (call_helper link i action target w).1.db.next_id
unfolding call_helper
call_helper-next_id link i action target w =
    grind (arith, fail_closed-next_id, after_restart-next_id)

claim_and_call-next_id :
    (link : Link) (i : IncidentRow) (action : ℕ) (target : Text) (w : World)
    → w.db.next_id ≤ (claim_and_call link i action target w).1.db.next_id
unfolding claim_and_call
claim_and_call-next_id link i action target w = grind (arith, call_helper-next_id)

by_status-next_id :
    (link : Link) (i : IncidentRow) (action : ℕ) (target : Text) (s : ActionStatus) (w : World)
    → w.db.next_id ≤ (by_status link i action target s w).1.db.next_id
unfolding by_status mark_operation_status
by_status-next_id link i action target s w =
    grind (arith, begin_verification-next_id, claim_and_call-next_id, escalate_incident-next_id)

with_action-next_id :
    (link : Link) (i : IncidentRow) (action : ℕ) (w : World)
    → w.db.next_id ≤ (with_action link i action w).1.db.next_id
unfolding with_action
with_action-next_id link i action w = grind (arith, by_status-next_id)

pub process_execute-next_id :
    (link : Link) (incident action : ℕ) (w : World)
    → w.db.next_id ≤ (process_execute link incident action w).1.db.next_id
unfolding process_execute mark_operation_status
process_execute-next_id link incident action w =
    grind (arith, with_action-next_id, transition_incident-next_id)

recovered-next_id :
    (i : IncidentRow) (a : ActionRow) (check : ℕ) (w : World)
    → w.db.next_id ≤ (recovered i a check w).1.db.next_id
unfolding recovered mark_operation_status
recovered-next_id i a check w = grind (arith, transition_incident-next_id, insert_job-next_id)

not_recovered-next_id :
    (i : IncidentRow) (a : ActionRow) (w : World)
    → w.db.next_id ≤ (not_recovered i a w).1.db.next_id
unfolding not_recovered mark_operation_status
not_recovered-next_id i a w = grind (arith, escalate_incident-next_id)

pub process_verify-next_id :
    (health_ok container_ok : Bool) (incident action check : ℕ) (w : World)
    → w.db.next_id ≤ (process_verify health_ok container_ok incident action check w).1.db.next_id
unfolding process_verify
process_verify-next_id health_ok container_ok incident action check w =
    grind (arith, recovered-next_id, not_recovered-next_id, escalate_incident-next_id)

approve_action-next_id :
    (actor : String) (i : IncidentRow) (a : ActionRow) (db : Database)
    → db.next_id ≤ (approve_action actor i a db).next_id
unfolding approve_action move_incident decide_action
approve_action-next_id actor i a db = grind (arith, insert_job-next_id)

pub approve_incident-next_id :
    (id : ℕ) (actor : String) (db : Database)
    → db.next_id ≤ (approve_incident id actor db).1.next_id
unfolding approve_incident approve_operation approve_repair approve_deployment
approve_incident-next_id id actor db =
    grind (arith, approve_action-next_id, transition_incident-next_id, insert_job-next_id)

pub reject_incident-next_id :
    (id : ℕ) (actor : String) (db : Database) → db.next_id ≤ (reject_incident id actor db).1.next_id
unfolding reject_incident reject_operation reject_repair reject_action move_incident decide_action
reject_incident-next_id id actor db = grind (arith, transition_incident-next_id)
