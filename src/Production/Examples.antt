-- ===== src/Production/Examples.antt =====
-- A project, a repair and the answers of Vercel and GitHub, for runs of the production jobs
-- (apps/worker/src/main.rs).
use nopager.Prelude.{Bool, true, false, some, none, [], ◌∷◌, Text, text, ok, err}
use nopager.Core.Incident.{IncidentState}
use nopager.Connectors.Vercel.{
  ConnectorError, Deployment, ProjectDetails, ProjectTarget, ProjectLink, Wire,
}
use nopager.Connectors.SourceCompatibility.{GitHubSourceIdentity}
use nopager.Production.Site.{Site, Run, GitHub}
use nopager.Connectors.Vercel
use nopager.Connectors.SourceCompatibility
use nopager.Production.Discovery
use nopager.Production.Site
use nopager.Production.Rollback
use nopager.Production.Durable
use nopager.Store.Deployments
use nopager.Production.Recovery
use nopager.Production.Revert
use nopager.Production.Promotion
use nopager.Production.Dispatch
use nopager.Store.Incidents
use nopager.Prelude.{text_eq, starts_with, trim, trim_start, trim_end}
use nopager.Core.Incident.{can_transition_to}
use nopager.Store.Schema.{
  find_row, update_rows, count_rows, insert_job, Database, ProjectRow, IncidentRow, AttemptRow,
  DeploymentRow, HealthStatus, RevertIdentity,
}

abbrev pub app : Text
app = text "prj_1"

abbrev pub sha : Text
sha = text "c0ffee"

abbrev pub link : ProjectLink
link = record {
  kind = some (text "github");
  org = some (text "acme");
  repo = some (text "shop");
  repo_id = none;
  production_branch = some (text "main");
}

abbrev pub target : ProjectTarget
target = record {
  id = text "dpl_new";
  url = text "new.vercel.app";
  ready_state = some (text "READY");
  ready_substate = none;
  commit_sha = some sha;
}

abbrev pub vercel_project : ProjectDetails
vercel_project = record { id = app; name = text "shop"; link = some link; production = some target }

abbrev pub deployment : Deployment
deployment = record {
  id = text "dpl_new";
  url = text "new.vercel.app";
  ready_state = some (text "READY");
  state = none;
  created = some 20;
  target = some (text "production");
  project_id = some app;
  commit_sha = some sha;
}

abbrev pub wire : Wire
wire = record {
  project = λ _. ok vercel_project;
  deployment = λ _ _. ok deployment;
  deployments = λ _. ok (deployment ∷ []);
  rebuild = λ _ _. ok (some (text "dpl_built"));
  roll_back = λ _ _. ok tt;
}

abbrev pub expected : GitHubSourceIdentity
expected = record {
  owner = text "Acme";
  repo = text "shop";
  repo_id = some 3;
  default_branch = text "main";
}

abbrev pub revert : RevertIdentity
revert = record { number = 4; node_id = text "n"; head_sha = text "h"; base_sha = text "b" }

abbrev pub github : GitHub
github = record {
  land_repair_pr = λ _ _ _. ok sha;
  open_revert = λ _ _ _. err ConnectorError.api;
  pull_request = λ _. err ConnectorError.api;
  branch_head = λ _. ok sha;
}

abbrev pub run : Bool → Run
run healthy = record {
  vercel_project_id = some app;
  vercel = some wire;
  github = some github;
  owner = text "acme";
  repo = text "shop";
  base_branch = some (text "main");
  repo_id = none;
  healthy = healthy;
  production_url = text "https://shop.example";
}

abbrev pub project : Bool → ProjectRow
project is_paused = record {
  id = 1;
  is_active = true;
  safety_mode = text "safe";
  protection_paused = is_paused;
}

abbrev pub incident : IncidentState → IncidentRow
incident status = record {
  id = 7;
  project_id = 1;
  deduplication_key = text "health:5";
  trigger_type = text "HEALTH_CHECK";
  status = status;
  title = "down";
  autonomous_resolution = false;
  resolved_at = none;
  current_attempt_id = some 5;
}

abbrev pub attempt : AttemptRow
attempt = record {
  id = 5;
  incident_id = 7;
  attempt_number = 1;
  base_commit_sha = text "base";
  is_complete = true;
  repair_branch = some (text "repair");
  repair_commit_sha = some sha;
  preview_deployment_id = some (text "dpl_preview");
}

abbrev pub deployed : Text → Bool → DeploymentRow
deployed id known_good = record {
  project_id = 1;
  provider_deployment_id = id;
  environment = text "production";
  commit_sha = sha;
  url = text "https://shop.example";
  status = text "READY";
  known_good = known_good;
}

abbrev pub db : IncidentState → Bool → Database
db status is_paused = record {
  projects = project is_paused ∷ [];
  incidents = incident status ∷ [];
  actions = [];
  attempts = attempt ∷ [];
  deployments = deployed (text "dpl_new") false ∷ deployed (text "dpl_old") true ∷ [];
  health_checks =
      record {
        id = 3;
        project_id = 1;
        consecutive_failures = 0;
        consecutive_successes = 1;
        status = HealthStatus.healthy;
      }
      ∷ [];
  jobs = [];
  events = [];
  audits = [];
  next_id = 10;
  clock = 50;
}

abbrev pub site : IncidentState → Bool → Site
site status is_paused = record {
  db = db status is_paused;
  rollbacks = [];
  promotions = [];
  landings = [];
}

unfoldable pub run_production : Unit {0}
unfolding Recovery.recovery_watch Recovery.recovery_watched Recovery.is_recovered
    Recovery.authoritative_current_target_matches Recovery.is_protected_branch_head
    Recovery.watch_source_recovery_production Recovery.resolve_escalated_source_recovery
    Recovery.resolve_row Revert.identity_from_payload Revert.trusted_created_revert_exists
    Revert.identity_eq Promotion.verify_promoted_production Promotion.promoted_production
    Promotion.by_discovery Dispatch.handle_production Dispatch.route Site.pause
    Durable.check_durable Durable.durable_watched Durable.durable Durable.watch_durable_production
    Deployments.incident_work Deployments.repair_attempt Deployments.latest_known_good_deployment
    Deployments.save_deployment Deployments.clear_known_good Deployments.set_known_good
    Deployments.mark_deployment_known_good Rollback.begin_rollback
    Rollback.rollback_target_is_controlled Rollback.roll_back Rollback.block_rollback
    Rollback.roll_back_from Rollback.rollback_action Rollback.process_rollback_action
    Incidents.transition_incident Incidents.no_approval find_row update_rows count_rows insert_job
    text_eq starts_with trim trim_start trim_end can_transition_to Vercel.is_text Vercel.github_link
    Vercel.non_blank Vercel.git_production_branch Vercel.is_current Vercel.current_production_target
    Vercel.normalize_current_target Vercel.insert_target Vercel.normalize_deployment_list
    Vercel.has_parent_segment Vercel.validate_id Vercel.get_project Vercel.get_deployment
    Vercel.list_deployments Vercel.rollback SourceCompatibility.other_repository
    SourceCompatibility.other_id SourceCompatibility.check_repository
    SourceCompatibility.check_branch SourceCompatibility.validate_vercel_github_source
    Discovery.deployment_matches_commit Discovery.reported_state Discovery.deployment_failed
    Discovery.production_readiness Discovery.is_candidate Discovery.created_or_zero Discovery.later
    Discovery.newest_production_candidate Discovery.https_url Discovery.from_connector
    Discovery.current_live_production_readiness Discovery.current_production_readiness
    Discovery.verify_current_production Discovery.discover Discovery.find_in
    Discovery.find_current_production_for_commit
run_production = tt
