-- ===== src/Store/Health/Baseline.antt =====
-- When a health check moves the deployment that rollbacks restore: `record_health_observation` of
-- crates/nopager-db/src/lib.rs with the trigger of migrations/0005_external_known_good.sql.
use Prim.Native.String.{String}
use nopager.Prelude.{ℕ, Bool, true, ◌≡◌, ◌≢◌, ◌⊎◌, some, All, text, ◌==◌}
use nopager.Store.Schema.{Database, HealthRow, IncidentRow, DeploymentRow, find_row}

-- The incident is of another project, or has been resolved.
abbrev pub IsSettled : ℕ → IncidentRow → Type 0
IsSettled project i = (i.project_id ≢ project) ⊎ ((time : ℕ) × (i.resolved_at ≡ some time))

-- What a health check has found when it changes the deployments.
pub record IsExternal (check : ℕ) (success : Bool) (db : Database) : Type 0 where
  pub row : HealthRow
  pub candidate : DeploymentRow
  pub found : find_row (λ h. h.id == check) db.health_checks ≡ some row
  pub is_success : success ≡ true
  pub settled : All (IsSettled row.project_id) db.incidents
  pub same_project : candidate.project_id ≡ row.project_id
  pub in_production : candidate.environment ≡ text "production"
  pub is_ready : candidate.status ≡ text "READY"
