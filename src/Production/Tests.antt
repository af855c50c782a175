-- ===== src/Production/Tests.antt =====
-- Runs of the production jobs and witnesses for their laws (apps/worker/src/main.rs, production.rs).
use nopager.Prelude.{true, false, ◌≡◌, refl, arith, some, none, [], ◌∷◌, text, ok, inr}
use nopager.Core.Incident.{verifying_production, rolling_back, rolled_back}
use nopager.Connectors.SourceCompatibility.Laws.{IsProtected, validate_vercel_github_source_iff}
use nopager.Production.Discovery.{ProductionDeployment}
use nopager.Production.Site.{attempt_payload}
use nopager.Production.Rollback.{
  process_rollback_action, verify_rolled_back_production, rollback_payload,
}
use nopager.Production.Examples.{
  run_production, sha, vercel_project, wire, expected, run, db, site, deployed, incident, project,
}
use nopager.Store.Schema.{Database, Payload, DeploymentRow}
use nopager.Store.Deployments.Laws.{
  HasOneBaseline, mark_deployment_known_good-HasOneBaseline,
  mark_deployment_known_good-latest_known_good_deployment,
}
use nopager.Production.Rollback.Guards.{IsGuarded, process_rollback_action-IsGuarded}
use nopager.Production.Rollback.Silence.{verify_rolled_back_production_silent}
use nopager.Production.Promotion.{watch_payload}
use nopager.Production.Durable.{watch_durable_production}
use nopager.Production.Baseline.{IsDurable, watch_durable_production-IsDurable}
use nopager.Production.Dispatch.{ProductionHandler, handle_production}
use nopager.Production.Dispatch.Calls.{IsSilent}
use nopager.Production.Dispatch.Paused.{handle_production_paused}
use nopager.Production.Dispatch.Transitions.{IsLegal}
use nopager.Production.Dispatch.StateMachine.{handle_production-IsLegal}
use nopager.Store.Deployments.{is_deployment, latest_known_good_deployment}

validate_vercel_github_source_iff_example : IsProtected vercel_project expected
unfolding run_production
validate_vercel_github_source_iff_example =
    (validate_vercel_github_source_iff vercel_project expected).0 refl

abbrev found : ProductionDeployment
found = record { id = text "dpl_new"; commit_sha = sha; url = text "https://new.vercel.app" }

abbrev rollback_job : Payload
rollback_job = rollback_payload 7 5 none none

one_rollback :
    (process_rollback_action (run true) rollback_job (site rolling_back false)).1.rollbacks
    ≡ text "dpl_old" ∷ []
unfolding run_production
one_rollback = refl

process_rollback_action-IsGuarded_example :
    IsGuarded (run true) rollback_job (site rolling_back false)
process_rollback_action-IsGuarded_example =
    process_rollback_action-IsGuarded (run true) rollback_job (site rolling_back false)
      (λ e. ground (arith, one_rollback))

verify_rolled_back_production_silent_example :
    verify_rolled_back_production (run false) (attempt_payload 7 5) (site rolled_back false)
    ≡ (ok tt, site rolled_back false)
unfolding run_production
verify_rolled_back_production_silent_example =
    verify_rolled_back_production_silent (run false) (attempt_payload 7 5) (site rolled_back false)
      {incident = 7} {attempt = 5}
      {work = record { incident = incident rolled_back; project = project false }}
      {known_good = deployed (text "dpl_old") true} {wire = wire} refl refl refl refl refl refl
      (inr (inr (refl, refl)))

abbrev marked : Database
marked = record (db verifying_production false) {
  deployments = deployed (text "dpl_new") true ∷ deployed (text "dpl_old") false ∷ [];
}

mark_deployment_known_good-HasOneBaseline_example :
    HasOneBaseline 1 marked.deployments
    × (HasOneBaseline 2 (db verifying_production false).deployments
        → HasOneBaseline 2 marked.deployments)
unfolding run_production
mark_deployment_known_good-HasOneBaseline_example =
    mark_deployment_known_good-HasOneBaseline 1 2 (text "dpl_new") (db verifying_production false)
      {db' = marked} refl

mark_deployment_known_good-latest_known_good_deployment_example :
    (row : DeploymentRow) × (latest_known_good_deployment 1 marked ≡ some row)
    × (is_deployment 1 (text "dpl_new") row ≡ true)
    × (row.status ≡ text "READY")
unfolding run_production
mark_deployment_known_good-latest_known_good_deployment_example =
    mark_deployment_known_good-latest_known_good_deployment 1 (text "dpl_new")
      (db verifying_production false) {db' = marked} {d = deployed (text "dpl_new") false} refl refl
      refl

handle_production_paused_example : IsSilent (site rolling_back true) (
    handle_production ProductionHandler.rollback_action
      (run true)
      rollback_job
      (site rolling_back true))
unfolding run_production
handle_production_paused_example =
    handle_production_paused ProductionHandler.rollback_action (run true) rollback_job
      (site rolling_back true) {incident = 7}
      {work = record { incident = incident rolling_back; project = project true }} refl refl refl

handle_production-IsLegal_example : IsLegal (site rolling_back false) (
    handle_production ProductionHandler.rollback_action
      (run true)
      rollback_job
      (site rolling_back false))
handle_production-IsLegal_example =
    handle_production-IsLegal ProductionHandler.rollback_action (run true) rollback_job
      (site rolling_back false)

abbrev watch_job : Payload
watch_job = watch_payload 7 5 2 (text "durable-production") (text "dpl_new") sha

moved_baseline :
    (watch_durable_production
      (run true)
      watch_job
      (site verifying_production false)).1.db.deployments
    ≡ marked.deployments
unfolding run_production
moved_baseline = refl

watch_durable_production-IsDurable_example :
    IsDurable (run true) watch_job (site verifying_production false)
watch_durable_production-IsDurable_example =
    watch_durable_production-IsDurable (run true) watch_job (site verifying_production false)
      (λ e. ground (arith, moved_baseline))
