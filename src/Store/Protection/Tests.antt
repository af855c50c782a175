-- ===== src/Store/Protection/Tests.antt =====
-- Runs of a resume and a witness for its law (crates/nopager-db/src/lib.rs).
use nopager.Prelude.{ℕ, ◌≡◌, refl, true, false, none, [], ◌∷◌, text}
use nopager.Core.Incident.{paused}
use nopager.Store.Schema.{Database, ProjectRow, IncidentRow, count_rows}
use nopager.Store.Protection.{ids_where, set_protection_paused, is_paused_of}
use nopager.Store.Protection.Resume.{has, set_protection_paused-resumed}

abbrev project : ProjectRow
project = record { id = 1; is_active = true; safety_mode = text "safe"; protection_paused = true }

abbrev incident : ℕ → IncidentRow
incident id = record {
  id = id;
  project_id = 1;
  deduplication_key = id ∷ [];
  trigger_type = text "HEALTH_CHECK";
  status = paused;
  title = "down";
  autonomous_resolution = false;
  resolved_at = none;
  current_attempt_id = none;
}

abbrev db : Database
db = record {
  projects = project ∷ [];
  incidents = incident 8 ∷ incident 7 ∷ [];
  actions = [];
  attempts = [];
  deployments = [];
  health_checks = [];
  jobs = [];
  events = [];
  audits = [];
  next_id = 10;
  clock = 50;
}

two_paused : count_rows (is_paused_of 1) db.incidents ≡ 2
unfolding count_rows
two_paused = refl

resumes_project : has (set_protection_paused false "ann" db).0 1 ≡ true
unfolding set_protection_paused ids_where
resumes_project = refl

set_protection_paused-resumed_example :
    count_rows (is_paused_of 1) (set_protection_paused false "ann" db).1.incidents ≡ 0
set_protection_paused-resumed_example = set_protection_paused-resumed "ann" 1 db resumes_project
