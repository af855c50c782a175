-- ===== src/Operations/Execute/Kept.antt =====
-- The context job of apps/worker/src/operations_runtime.rs and `set_protection_paused` of
-- crates/nopager-db/src/lib.rs keep the rows of the actions.
use Prim.Native.String.{String}
use nopager.Prelude.{ℕ, Bool, true, false, ◌≡◌, refl, ◌∙◌, arith, List, [], ◌∷◌}
use nopager.Store.Schema.{Database}
use nopager.Store.Incidents.Laws.{transition_incident-actions, insert_job-actions}
use nopager.Store.Deployments.{IncidentWork}
use nopager.Store.Protection.{
  for_each, resume_incident, enqueue_resume, resume_project, change_project, set_protection_paused,
}
use nopager.Operations.Execute.{World}
use nopager.Operations.Execute.Calls.{IsQuiet-refl}
use nopager.Operations.Execute.Silent.{IsSilent}
use nopager.Operations.Execute.Planning.{process_context-IsGrowing}
use nopager.Operations.Plan.{enqueue_plan, context_step, process_context}

context_step-actions :
    (work : IncidentWork) (w : World) → (context_step work w).1.db.actions ≡ w.db.actions
unfolding context_step enqueue_plan
context_step-actions work w = grind (arith, transition_incident-actions, insert_job-actions)

process_context-actions :
    (incident : ℕ) (w : World) → (process_context incident w).1.db.actions ≡ w.db.actions
unfolding process_context
process_context-actions incident w = grind (arith, context_step-actions)

for_each-actions :
    (f : ℕ → Database → Database)
    → ((id : ℕ) (db : Database) → (f id db).actions ≡ db.actions)
    → (ids : List ℕ) (db : Database) → (for_each ids f db).actions ≡ db.actions
unfolding for_each
for_each-actions f h [] db = refl
for_each-actions f h (id ∷ ids) db = for_each-actions f h ids (f id db) ∙ h id db

resume_incident-actions :
    (project : ℕ) (actor : String) (id : ℕ) (db : Database)
    → (resume_incident project actor id db).actions ≡ db.actions
unfolding resume_incident enqueue_resume
resume_incident-actions project actor id db = ground arith

change_project-actions :
    (value : Bool) (actor : String) (project : ℕ) (db : Database)
    → (change_project value actor project db).actions ≡ db.actions
unfolding change_project resume_project
change_project-actions true actor project db = refl
change_project-actions false actor project db =
    for_each-actions (resume_incident project actor) (resume_incident-actions project actor) _ _

set_protection_paused-actions :
    (value : Bool) (actor : String) (db : Database)
    → (set_protection_paused value actor db).1.actions ≡ db.actions
unfolding set_protection_paused
set_protection_paused-actions value actor db =
    for_each-actions (change_project value actor) (change_project-actions value actor) _ _

pub process_context-IsSilent :
    (k incident : ℕ) (w : World) → IsSilent k w (process_context incident w).1
process_context-IsSilent k incident w = record {
  log = (process_context-IsGrowing k incident w).log;
  rows = IsQuiet-refl k (process_context-actions incident w);
}

pub set_protection_paused-IsSilent :
    (k : ℕ) (value : Bool) (actor : String) (w : World)
    → IsSilent k w (record w { db = (set_protection_paused value actor w.db).1 })
set_protection_paused-IsSilent k value actor w = record {
  log = refl;
  rows = IsQuiet-refl k (set_protection_paused-actions value actor w.db);
}
