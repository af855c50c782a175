-- ===== src/Store/Approval/Laws.antt =====
-- What a decision of an administrator changes, once and for all: `approve_incident` and
-- `reject_incident` of crates/nopager-db/src/lib.rs.
use Prim.Native.String.{String}
use nopager.Prelude.{
  ℕ, Bool, true, false, ◌≡◌, ◌≢◌, refl, arith, none, some, List, [], ◌∷◌, ◌==◌, ◌&&◌, ok,
}
use nopager.Store.Schema.{
  Database, IncidentRow, ActionRow, ActionStatus, planned, rejected, RecordedDecision, approved,
  find_row, update_rows,
}
use nopager.Store.Incidents.Laws.{insert_job-actions}
use nopager.Store.Approval.{
  approve_incident, approve_operation, approve_action, reject_incident, reject_operation,
  reject_action, decide_action, move_incident, has_incident, awaits_approval, already_approved,
  already_rejected,
}

-- The row that a statement finds is the row that it changes.
find_row-update_rows :
    {A : Type 0} (wanted test : A → Bool) (change : A → A)
    → ((x : A) → wanted (change x) ≡ wanted x)
    → (xs : List A) {a : A} → find_row wanted xs ≡ some a
    → test a ≡ true
    → find_row wanted (update_rows test change xs) ≡ some (change a)
unfolding find_row update_rows
find_row-update_rows wanted test change same [] {a} h t = ground arith
find_row-update_rows wanted test change same (x ∷ xs) {a} h t =
    ground (arith, find_row-update_rows wanted test change same xs {a = a}, same x)

decided_row :
    (id : ℕ) (s : ActionStatus) (d : RecordedDecision) (db : Database) {a : ActionRow}
    → find_row (has_incident id) db.actions ≡ some a
    → awaits_approval a.status ≡ true
    → find_row (has_incident id) (decide_action a.id s d db).actions
      ≡ some (record a { status = s; policy_decision = d })
unfolding decide_action
decided_row id s d db {a} found waits =
    find_row-update_rows (has_incident id) (λ r. r.id == a.id && awaits_approval r.status)
      (λ r. record r { status = s; policy_decision = d }) (λ r. refl) db.actions found
      (ground arith)

approve_action_row :
    (id : ℕ) (actor : String) (i : IncidentRow) (db : Database) {a : ActionRow}
    → find_row (has_incident id) db.actions ≡ some a
    → awaits_approval a.status ≡ true
    → find_row (has_incident id) (approve_action actor i a db).actions
      ≡ some (record a { status = planned; policy_decision = approved })
unfolding approve_action move_incident
approve_action_row id actor i db {a} found waits =
    grind (arith, insert_job-actions, decided_row id planned approved db found waits)

reject_action_row :
    (id : ℕ) (actor : String) (i : IncidentRow) (db : Database) {a : ActionRow}
    → find_row (has_incident id) db.actions ≡ some a
    → awaits_approval a.status ≡ true
    → find_row (has_incident id) (reject_action actor i a db).actions
      ≡ some (record a { status = rejected; policy_decision = RecordedDecision.rejected })
unfolding reject_action move_incident
reject_action_row id actor i db {a} found waits =
    decided_row id rejected RecordedDecision.rejected db found waits

-- What the second decision finds.
approved_row :
    (id : ℕ) (actor : String) (db : Database) {a : ActionRow}
    → find_row (has_incident id) db.actions ≡ some a
    → (approve_incident id actor db).0 ≡ ok tt
    → elim (find_row (has_incident id) (approve_incident id actor db).1.actions) [
      | none ↦ false
      | some b ↦ already_approved b
    ]
      ≡ true
unfolding approve_incident approve_operation
approved_row id actor db {a} found h = grind (arith, approve_action_row)

rejected_row :
    (id : ℕ) (actor : String) (db : Database) {a : ActionRow}
    → find_row (has_incident id) db.actions ≡ some a
    → (reject_incident id actor db).0 ≡ ok tt
    → elim (find_row (has_incident id) (reject_incident id actor db).1.actions) [
      | none ↦ false
      | some b ↦ already_rejected b
    ]
      ≡ true
unfolding reject_incident reject_operation
rejected_row id actor db {a} found h = grind (arith, reject_action_row)

approve_again :
    (id : ℕ) (other : String) (db : Database)
    → elim (find_row (has_incident id) db.actions) [ none ↦ false | some b ↦ already_approved b ]
      ≡ true
    → approve_incident id other db ≡ (ok tt, db)
unfolding approve_incident
approve_again id other db h = ground arith

approve_fails :
    (id : ℕ) (other : String) (db : Database)
    → elim (find_row (has_incident id) db.actions) [ none ↦ false | some b ↦ already_rejected b ]
      ≡ true
    → ((approve_incident id other db).0 ≢ ok tt) × ((approve_incident id other db).1 ≡ db)
unfolding approve_incident approve_operation
approve_fails id other db h = (λ e. ground arith, ground arith)

-- Where an approval of an operation succeeds, approving the incident again succeeds and changes
-- nothing, whoever does it.
pub approve_incident-approve_incident :
    (id : ℕ) (actor other : String) (db : Database) {a : ActionRow}
    → find_row (has_incident id) db.actions ≡ some a
    → (approve_incident id actor db).0 ≡ ok tt
    → approve_incident id other (approve_incident id actor db).1
      ≡ (ok tt, (approve_incident id actor db).1)
approve_incident-approve_incident id actor other db {a} found h =
    approve_again id other (approve_incident id actor db).1 (approved_row id actor db found h)

-- Where a rejection of an operation succeeds, no approval of the incident succeeds any more, and an
-- attempt changes nothing.
pub approve_incident-reject_incident :
    (id : ℕ) (actor other : String) (db : Database) {a : ActionRow}
    → find_row (has_incident id) db.actions ≡ some a
    → (reject_incident id actor db).0 ≡ ok tt
    → ((approve_incident id other (reject_incident id actor db).1).0 ≢ ok tt)
      × ((approve_incident id other (reject_incident id actor db).1).1
          ≡ (reject_incident id actor db).1)
approve_incident-reject_incident id actor other db {a} found h =
    approve_fails id other (reject_incident id actor db).1 (rejected_row id actor db found h)
