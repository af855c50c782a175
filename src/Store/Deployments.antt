-- ===== src/Store/Deployments.antt =====
-- crates/nopager-db/src/lib.rs: `incident_work`, the repair attempts and the deployments.
pub mod Laws
use Prim.Native.String.{String}
use nopager.Prelude.{
  ℕ, ◌+◌, suc, max, Bool, true, false, not, ◌&&◌, ◌||◌, Option, none, some, List, [], ◌∷◌, Text,
  text, text_eq, ◌==◌, if◌then◌else◌, Result, ok, err, is_empty,
}
use nopager.Store.Schema.{
  Database, DatabaseError, sqlx_error, deployment_not_found, incomplete_repair_attempt, IncidentRow,
  ProjectRow, AttemptRow, DeploymentRow, HealthRow, find_row, update_rows, count_rows,
}

-- The columns of `IncidentWork` that the worker reads; a project with no health check is an error.
pub record IncidentWork : Type 0 where
  pub incident : IncidentRow
  pub project : ProjectRow

abbrev pub work_of :
    IncidentRow → Option ProjectRow → Option HealthRow → Result DatabaseError IncidentWork
work_of i (some p) (some _) = ok (record { incident = i; project = p })
work_of i _ _ = err sqlx_error

unfoldable pub incident_work : ℕ → Database → Result DatabaseError IncidentWork
incident_work id db = elim (find_row (λ i. i.id == id) db.incidents) [
  | none ↦ err sqlx_error
  | some i ↦
      work_of i (find_row (λ p. p.id == i.project_id) db.projects)
        (find_row (λ h. h.project_id == i.project_id) db.health_checks)
]

unfoldable pub repair_attempt : ℕ → Database → Result DatabaseError AttemptRow
repair_attempt id db = elim (find_row (λ a. a.id == id) db.attempts) [
  | none ↦ err sqlx_error
  | some a ↦ if a.is_complete then ok a else err incomplete_repair_attempt
]

-- `COALESCE(max(attempt_number), 0) + 1`
unfoldable pub last_attempt_number : ℕ → List AttemptRow → ℕ
last_attempt_number incident [] = 0
last_attempt_number incident (a ∷ attempts) =
    let rest = last_attempt_number incident attempts in
    if a.incident_id == incident then max a.attempt_number rest else rest

-- The two statements that `create_repair_attempt` and `create_followup_repair_attempt` end with.
unfoldable pub insert_attempt : ℕ → Text → Database → Database
insert_attempt incident base_sha db = record db {
  attempts =
      record {
        id = db.next_id;
        incident_id = incident;
        attempt_number = last_attempt_number incident db.attempts + 1;
        base_commit_sha = base_sha;
        is_complete = false;
        repair_branch = none;
        repair_commit_sha = none;
        preview_deployment_id = none;
      }
      ∷ db.attempts;
  incidents =
      update_rows (λ i. i.id == incident) (λ i. record i { current_attempt_id = some db.next_id })
        db.incidents;
  next_id = db.next_id + 1;
}

unfoldable pub create_repair_attempt : ℕ → Text → Database → Result DatabaseError (ℕ × Database)
create_repair_attempt incident base_sha db = elim (find_row (λ i. i.id == incident) db.incidents) [
  | none ↦ err sqlx_error
  | some i ↦ elim i.current_attempt_id [
    | some id ↦ ok (id, db)
    | none ↦ ok (db.next_id, insert_attempt incident base_sha db)
  ]
]

-- With no incident of that id, the foreign key of `repair_attempts` refuses the row.
unfoldable pub create_followup_repair_attempt :
    ℕ → Text → Database → Result DatabaseError (ℕ × Database)
create_followup_repair_attempt incident base_sha db =
    elim (find_row (λ i. i.id == incident) db.incidents) [
      | none ↦ err sqlx_error
      | some _ ↦ ok (db.next_id, insert_attempt incident base_sha db)
    ]

abbrev update_attempt : ℕ → (AttemptRow → AttemptRow) → Database → Database
update_attempt id change db = record db {
  attempts = update_rows (λ a. a.id == id) change db.attempts;
}

-- `diagnosis_json` was set when the row was created.
unfoldable pub save_repair_proposal : ℕ → Database → Database
save_repair_proposal id = update_attempt id (λ a. record a { is_complete = true })

unfoldable pub save_pull_request : ℕ → Text → Text → Database → Database
save_pull_request id branch commit_sha =
    update_attempt id
      (λ a. record a { repair_branch = some branch; repair_commit_sha = some commit_sha })

unfoldable pub save_preview : ℕ → Text → Database → Database
save_preview id deployment_id =
    update_attempt id (λ a. record a { preview_deployment_id = some deployment_id })

abbrev pub is_deployment : ℕ → Text → DeploymentRow → Bool
is_deployment project id d = d.project_id == project && text_eq d.provider_deployment_id id

abbrev pub is_production : ℕ → DeploymentRow → Bool
is_production project d = d.project_id == project && text_eq d.environment (text "production")

abbrev pub same_row : DeploymentRow → DeploymentRow → Bool
same_row new = is_deployment new.project_id new.provider_deployment_id

-- `INSERT INTO deployments … ON CONFLICT (project_id, provider_deployment_id) DO UPDATE SET …`
unfoldable pub save_deployment : DeploymentRow → Database → Database
save_deployment new db = record db {
  deployments = elim (find_row (same_row new) db.deployments) [
    | none ↦ new ∷ db.deployments
    | some _ ↦
        update_rows (same_row new)
          (λ d. record d {
            environment = new.environment;
            commit_sha = new.commit_sha;
            url = new.url;
            status = new.status;
            known_good = d.known_good || new.known_good;
          })
          db.deployments
  ];
}

unfoldable pub clear_known_good : ℕ → List DeploymentRow → List DeploymentRow
clear_known_good project =
    update_rows (is_production project) (λ d. record d { known_good = false })

unfoldable pub set_known_good : ℕ → Text → List DeploymentRow → List DeploymentRow
set_known_good project id =
    update_rows (is_deployment project id)
      (λ d. record d { known_good = true; status = text "READY" })

unfoldable pub mark_deployment_known_good : ℕ → Text → Database → Result DatabaseError Database
mark_deployment_known_good project id db =
    if count_rows (is_deployment project id) db.deployments == 1
    then ok (record db {
      deployments = set_known_good project id (clear_known_good project db.deployments);
    })
    else err deployment_not_found

abbrev pub is_known_good : ℕ → DeploymentRow → Bool
is_known_good project d = is_production project d && d.known_good

unfoldable pub latest_known_good_deployment : ℕ → Database → Option DeploymentRow
latest_known_good_deployment project db = find_row (is_known_good project) db.deployments
