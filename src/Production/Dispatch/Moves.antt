-- ===== src/Production/Dispatch/Moves.antt =====
-- How the rows of the incidents may move: `IncidentState::can_transition_to` of crates/nopager-core/src/lib.rs,
-- and the end of an escalated incident in apps/worker/src/source_recovery.rs.
use nopager.Prelude.{
  ℕ, Bool, true, false, ◌≡◌, sym, ◌⊎◌, inl, inr, refl, arith, Text, List, [], ◌∷◌, ok,
  if◌then◌else◌, Bool-cases,
}
use nopager.Core.Incident.{can_transition_to, escalated, resolved, state_eq_iff}
use nopager.Store.Schema.{Database, IncidentRow, update_rows, insert_job, Payload, JobKey}
use nopager.Store.Deployments.{mark_deployment_known_good}
use nopager.Store.Incidents.{
  IncidentTransition, is_expected, set_status, transition_incident, escalate_incident, no_approval,
}

-- The row of the same incident, of the same project.
pub record IsMoved (i i' : IncidentRow) : Type 0 where
  pub same_id : i'.id ≡ i.id
  pub same_project : i'.project_id ≡ i.project_id
  pub is_allowed :
      (i'.status ≡ i.status)
      ⊎ (can_transition_to i.status i'.status ≡ true)
      ⊎ ((i.status ≡ escalated) × (i'.status ≡ resolved))

-- Row by row, in the same order.
pub data AreMoved : List IncidentRow → List IncidentRow → Type 0 where
  none_moved : AreMoved [] []
  row_moved :
      {i i' : IncidentRow} {is is' : List IncidentRow}
      → IsMoved i i'
      → AreMoved is is'
      → AreMoved (i ∷ is) (i' ∷ is')

pub IsMoved-refl : (i : IncidentRow) → IsMoved i i
IsMoved-refl i = record { same_id = refl; same_project = refl; is_allowed = inl refl }

pub AreMoved-refl : (is : List IncidentRow) → AreMoved is is
AreMoved-refl [] = none_moved
AreMoved-refl (i ∷ is) = row_moved (IsMoved-refl i) (AreMoved-refl is)

AreMoved-if :
    (b : Bool) (i i' : IncidentRow) → (b ≡ true → IsMoved i i') → IsMoved i (if b then i' else i)
AreMoved-if true i i' h = h refl
AreMoved-if false i i' h = IsMoved-refl i

pub AreMoved-update :
    (test : IncidentRow → Bool) (change : IncidentRow → IncidentRow)
    → ((i : IncidentRow) → test i ≡ true → IsMoved i (change i))
    → (is : List IncidentRow) → AreMoved is (update_rows test change is)
unfolding update_rows
AreMoved-update test change h [] = none_moved
AreMoved-update test change h (i ∷ is) =
    row_moved (AreMoved-if (test i) i (change i) (h i)) (AreMoved-update test change h is)

set_status-IsMoved :
    (t : IncidentTransition) (autonomous : Bool) (now : ℕ) (i : IncidentRow)
    → can_transition_to t.expected t.next ≡ true
    → is_expected t i ≡ true
    → IsMoved i (set_status t.next autonomous now i)
set_status-IsMoved t autonomous now i c e = record {
  same_id = refl;
  same_project = refl;
  is_allowed = inr (inl (grind (arith, state_eq_iff)));
}

transition_incident-incidents :
    (t : IncidentTransition) (db : Database) {db' : Database}
    → transition_incident t db ≡ ok db'
    → (can_transition_to t.expected t.next ≡ true)
      × (db'.incidents
          ≡ update_rows
              (is_expected t)
              (set_status t.next (no_approval t.incident_id db) db.clock)
              db.incidents)
unfolding transition_incident
transition_incident-incidents t db h = elim (Bool-cases (can_transition_to t.expected t.next)) [
  | inl c ↦ (c, ground arith)
  | inr c ↦ absurd (ground arith)
]

pub transition_incident-AreMoved :
    (t : IncidentTransition) (db : Database) {db' : Database}
    → transition_incident t db ≡ ok db'
    → AreMoved db.incidents db'.incidents
transition_incident-AreMoved t db {db'} h =
    let (c, e) = transition_incident-incidents t db h in
    rw e (
      AreMoved-update (is_expected t) (set_status t.next (no_approval t.incident_id db) db.clock)
        (λ i m. set_status-IsMoved t (no_approval t.incident_id db) db.clock i c m) db.incidents)

pub escalate_incident-AreMoved :
    (id : ℕ) (db : Database) {db' : Database}
    → escalate_incident id db ≡ ok db'
    → AreMoved db.incidents db'.incidents
unfolding escalate_incident
escalate_incident-AreMoved id db {db'} h =
    grind (arith, transition_incident-AreMoved, AreMoved-refl)

pub insert_job-incidents :
    (type : Text) (key : JobKey) (p : Payload) (m delay : ℕ) (db : Database)
    → (insert_job type key p m delay db).incidents ≡ db.incidents
unfolding insert_job
insert_job-incidents type key p m delay db = ground arith

pub moved_from :
    (t : IncidentTransition) (is : List IncidentRow) (db : Database) {db' : Database}
    → db.incidents ≡ is
    → transition_incident t db ≡ ok db'
    → AreMoved is db'.incidents
moved_from t is db {db'} e h = rw (sym e) (transition_incident-AreMoved t db h)

pub escalated_from :
    (id : ℕ) (is : List IncidentRow) (db : Database) {db' : Database}
    → db.incidents ≡ is
    → escalate_incident id db ≡ ok db'
    → AreMoved is db'.incidents
escalated_from id is db {db'} e h = rw (sym e) (escalate_incident-AreMoved id db h)

pub mark-incidents :
    (project : ℕ) (id : Text) (db : Database) {db' : Database}
    → mark_deployment_known_good project id db ≡ ok db'
    → db'.incidents ≡ db.incidents
unfolding mark_deployment_known_good
mark-incidents project id db h = ground arith
