-- ===== src/Store/Health.antt =====
-- crates/nopager-db/src/lib.rs: `record_health_observation`, with the trigger of
-- migrations/0005_external_known_good.sql that its UPDATE fires. The counters are `i32`s that saturate.
pub mod History
pub mod Baseline
use Prim.Native.String.{String}
use nopager.Prelude.{
  ℕ, ◌+◌, min, Bool, true, false, not, ◌&&◌, ◌||◌, is_some, text_eq, none, some, Option, List, Text,
  text, ◌++◌, ltb, leb, ◌==◌, if◌then◌else◌, Result, ok, err,
}
use nopager.Store.Schema.{
  Database, DatabaseError, sqlx_error, HealthRow, IncidentRow, DeploymentRow, HealthStatus, down,
  healthy, failing, find_row, update_rows,
}
use nopager.Store.Incidents.{open_incident_tx}

abbrev pub saturating_add_one : ℕ → ℕ
saturating_add_one n = min 2147483647 (n + 1)

abbrev pub is_down : HealthStatus → Bool
is_down down = true
is_down _ = false

abbrev pub is_healthy : HealthStatus → Bool
is_healthy healthy = true
is_healthy _ = false

-- The new counters and the new status.
unfoldable pub observe_row : Bool → HealthRow → HealthRow
observe_row true h =
    let successes = saturating_add_one h.consecutive_successes in
    record h {
      consecutive_failures = 0;
      consecutive_successes = successes;
      status = if is_down h.status && ltb successes 2 then down else healthy;
    }
observe_row false h =
    let failures = saturating_add_one h.consecutive_failures in
    record h {
      consecutive_failures = failures;
      consecutive_successes = 0;
      status = if leb 3 failures then down else failing;
    }

-- `project_id = … AND resolved_at IS NULL`
abbrev pub is_unresolved_of : ℕ → IncidentRow → Bool
is_unresolved_of project_id i = i.project_id == project_id && not (is_some i.resolved_at)

abbrev pub is_production_of : ℕ → DeploymentRow → Bool
is_production_of project_id d =
    d.project_id == project_id && text_eq d.environment (text "production")

-- The newest READY production deployment of the project.
abbrev pub external_candidate : ℕ → Database → Option DeploymentRow
external_candidate project_id db =
    find_row (λ d. is_production_of project_id d && text_eq d.status (text "READY")) db.deployments

-- `known_good OR id = candidate_id`; the provider's id tells a project's rows apart.
abbrev pub set_external_known_good : ℕ → DeploymentRow → Database → Database
set_external_known_good project_id candidate db = record db {
  deployments =
      update_rows (is_production_of project_id)
        (λ d. record d {
          known_good = text_eq d.provider_deployment_id candidate.provider_deployment_id;
        })
        db.deployments;
}

-- The trigger `nopager_refresh_external_known_good`, for the new status of a health check.
unfoldable pub refresh_external_known_good : ℕ → HealthStatus → Database → Database
refresh_external_known_good project_id status db =
    if not (is_healthy status) || is_some (find_row (is_unresolved_of project_id) db.incidents)
    then db
    else elim (external_candidate project_id db) [
      | none ↦ db
      | some candidate ↦ set_external_known_good project_id candidate db
    ]

-- `key` is `format!("health:{}", check.id)`, `title` the text with the URL.
unfoldable pub record_health_observation :
    (check_id project_id : ℕ)
    → (key : Text) → (title : String) → (success : Bool) → Database
    → Result DatabaseError (Option ℕ × Database)
record_health_observation check_id project_id key title success db =
    elim (find_row (λ h. h.id == check_id) db.health_checks) [
      | none ↦ err sqlx_error
      | some h ↦
          let status = (observe_row success h).status in
          let db1 = refresh_external_known_good h.project_id status (record db {
            health_checks =
                update_rows (λ r. r.id == check_id)
                  (λ r. record (observe_row success h) { id = r.id; project_id = r.project_id })
                  db.health_checks;
          }) in
          if is_down status && not (is_down h.status)
          then open_incident_tx project_id key (text "HEALTH_CHECK") title db1
          else ok (none, db1)
    ]
