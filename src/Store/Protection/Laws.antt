-- ===== src/Store/Protection/Laws.antt =====
-- What a pause and a resume leave behind: crates/nopager-db/src/lib.rs, `set_protection_paused`.
use Prim.Native.String.{String}
use nopager.Prelude.{
  ℕ, Bool, true, false, not, ◌≡◌, refl, sym, ap, ◌∙◌, arith, some, List, [], ◌∷◌, ◌==◌, ok,
}
use nopager.Store.Schema.{Database, ProjectRow, find_row, update_rows, count_rows}
use nopager.Store.Deployments.{IncidentWork, incident_work}
use nopager.Store.Protection.{
  for_each, is_other, resume_incident, resume_project, change_project, set_protection_paused,
  enqueue_resume,
}

-- A project that was archived.
abbrev pub is_inactive : ProjectRow → Bool
is_inactive p = not p.is_active

no_other :
    (value : Bool) (ps : List ProjectRow)
    → count_rows
        (is_other value)
        (update_rows (is_other value) (λ p. record p { protection_paused = value }) ps)
      ≡ 0
unfolding count_rows update_rows
no_other value [] = refl
no_other true (p ∷ ps) = ground (arith, no_other true ps)
no_other false (p ∷ ps) = ground (arith, no_other false ps)

for_each-projects :
    (f : ℕ → Database → Database)
    → ((id : ℕ) (db : Database) → (f id db).projects ≡ db.projects)
    → (ids : List ℕ) (db : Database) → (for_each ids f db).projects ≡ db.projects
unfolding for_each
for_each-projects f same [] db = refl
for_each-projects f same (id ∷ ids) db = for_each-projects f same ids (f id db) ∙ same id db

resume_incident-projects :
    (project : ℕ) (actor : String) (id : ℕ) (db : Database)
    → (resume_incident project actor id db).projects ≡ db.projects
unfolding resume_incident enqueue_resume
resume_incident-projects project actor id db = ground arith

change_project-projects :
    (value : Bool) (actor : String) (project : ℕ) (db : Database)
    → (change_project value actor project db).projects ≡ db.projects
unfolding change_project resume_project
change_project-projects true actor project db = refl
change_project-projects false actor project db =
    for_each-projects (resume_incident project actor) (resume_incident-projects project actor) _ _

-- After a pause every active project is paused, after a resume none is.
pub set_protection_paused-projects :
    (value : Bool) (actor : String) (db : Database)
    → count_rows (is_other value) (set_protection_paused value actor db).1.projects ≡ 0
unfolding set_protection_paused
set_protection_paused-projects value actor db =
    ap (count_rows (is_other value))
      (for_each-projects (change_project value actor) (change_project-projects value actor) _ _)
    ∙ no_other value db.projects

none_counted :
    {A : Type 0} (p q : A → Bool) (xs : List A) {x : A}
    → count_rows q xs ≡ 0
    → find_row p xs ≡ some x
    → q x ≡ false
unfolding count_rows find_row
none_counted p q [] h f = ground arith
none_counted p q (y ∷ xs) {x} h f = ground (arith, none_counted p q xs {x = x})

pub incident_work-project :
    (id : ℕ) (db : Database) {work : IncidentWork}
    → incident_work id db ≡ ok work
    → find_row (λ p. p.id == work.incident.project_id) db.projects ≡ some work.project
unfolding incident_work
incident_work-project id db h = ground arith

still_active :
    (value : Bool) (ps : List ProjectRow)
    → count_rows is_inactive ps ≡ 0
    → count_rows is_inactive
        (update_rows (is_other value) (λ p. record p { protection_paused = value }) ps)
      ≡ 0
unfolding count_rows update_rows
still_active value [] h = refl
still_active value (p ∷ ps) h = ground (arith, still_active value ps)

pub found_is_paused :
    (actor : String) (db : Database)
    → count_rows is_inactive db.projects ≡ 0
    → (id : ℕ) {p : ProjectRow}
    → find_row (λ p. p.id == id) (set_protection_paused true actor db).1.projects ≡ some p
    → p.protection_paused ≡ true
unfolding set_protection_paused
found_is_paused actor db h id {p} found =
    let same =
      for_each-projects (change_project true actor) (change_project-projects true actor) _ _ in
    let found' = sym (ap (find_row (λ p. p.id == id)) same) ∙ found in
    let other =
      none_counted (λ p. p.id == id) (is_other true) _ (no_other true db.projects) found' in
    let active =
      none_counted (λ p. p.id == id) is_inactive _ (still_active true db.projects h) found' in
    ground arith
