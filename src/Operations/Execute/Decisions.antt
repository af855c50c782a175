-- ===== src/Operations/Execute/Decisions.antt =====
-- What `approve_incident` and `reject_incident` of crates/nopager-db/src/lib.rs do to the rows of an
-- action.
use Prim.Native.String.{String}
use nopager.Prelude.{ℕ, refl, arith, ◌==◌, ◌&&◌}
use nopager.Store.Schema.{
  Database, IncidentRow, ProjectRow, ActionRow, ActionStatus, planned, rejected, RecordedDecision,
  approved,
}
use nopager.Store.Incidents.Laws.{transition_incident-actions, insert_job-actions}
use nopager.Store.Approval.{
  approve_incident, reject_incident, approve_action, reject_action, approve_deployment,
  decide_action, move_incident, awaits_approval, approve_operation, approve_repair,
  reject_operation, reject_repair,
}
use nopager.Operations.Execute.Calls.{IsQuiet, IsQuiet-refl, IsQuiet-trans, update_rows-IsQuiet}

module _ (k : ℕ) where
  -- Only an open row is decided, so no closed one is opened.
  decide_action-IsQuiet :
      (id : ℕ) (s : ActionStatus) (d : RecordedDecision) (db : Database)
      → IsQuiet k db.actions (decide_action id s d db).actions
  unfolding decide_action
  decide_action-IsQuiet id s d db =
      update_rows-IsQuiet k (λ a. a.id == id && awaits_approval a.status)
        (λ a. record a { status = s; policy_decision = d }) (λ a. refl) (λ a t h. ground arith)
        db.actions

  approve_action-IsQuiet :
      (actor : String) (i : IncidentRow) (a : ActionRow) (db : Database)
      → IsQuiet k db.actions (approve_action actor i a db).actions
  unfolding approve_action move_incident
  approve_action-IsQuiet actor i a db =
      IsQuiet-trans k (decide_action-IsQuiet a.id planned approved db)
        (IsQuiet-refl k (grind (arith, insert_job-actions)))

  reject_action-IsQuiet :
      (actor : String) (i : IncidentRow) (a : ActionRow) (db : Database)
      → IsQuiet k db.actions (reject_action actor i a db).actions
  unfolding reject_action move_incident
  reject_action-IsQuiet actor i a db =
      decide_action-IsQuiet a.id rejected RecordedDecision.rejected db

  unchanged : (db : Database) → IsQuiet k db.actions db.actions
  unchanged db = IsQuiet-refl k refl

  approve_operation-IsQuiet :
      (actor : String) (a : ActionRow) (db : Database) (i : IncidentRow) (p : ProjectRow)
      → IsQuiet k db.actions (approve_operation actor a db i p).1.actions
  unfolding approve_operation
  approve_operation-IsQuiet actor a db i p = grind (arith, unchanged, approve_action-IsQuiet)

  approve_repair-IsQuiet :
      (actor : String) (db : Database) (i : IncidentRow) (p : ProjectRow)
      → IsQuiet k db.actions (approve_repair actor db i p).1.actions
  unfolding approve_repair approve_deployment
  approve_repair-IsQuiet actor db i p =
      IsQuiet-refl k (grind (arith, transition_incident-actions, insert_job-actions))

  reject_operation-IsQuiet :
      (actor : String) (a : ActionRow) (db : Database) (i : IncidentRow)
      → IsQuiet k db.actions (reject_operation actor a db i).1.actions
  unfolding reject_operation
  reject_operation-IsQuiet actor a db i = grind (arith, unchanged, reject_action-IsQuiet)

  reject_repair-IsQuiet :
      (actor : String) (db : Database) (i : IncidentRow) (p : ProjectRow)
      → IsQuiet k db.actions (reject_repair actor db i p).1.actions
  unfolding reject_repair
  reject_repair-IsQuiet actor db i p = IsQuiet-refl k (grind (arith, transition_incident-actions))

  pub approve-IsQuiet :
      (id : ℕ) (actor : String) (db : Database)
      → IsQuiet k db.actions (approve_incident id actor db).1.actions
  unfolding approve_incident
  approve-IsQuiet id actor db =
      grind (arith, unchanged, approve_operation-IsQuiet, approve_repair-IsQuiet)

  pub reject-IsQuiet :
      (id : ℕ) (actor : String) (db : Database)
      → IsQuiet k db.actions (reject_incident id actor db).1.actions
  unfolding reject_incident
  reject-IsQuiet id actor db =
      grind (arith, unchanged, reject_operation-IsQuiet, reject_repair-IsQuiet)
