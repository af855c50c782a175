-- ===== src/Production/Dispatch/Paused.antt =====
-- The Kill Switch and the production jobs: apps/worker/src/main.rs.
use nopager.Prelude.{ℕ, true, ◌≡◌, arith, some, ok}
use nopager.Production.Site.{Site, Run}
use nopager.Production.Rollback.{process_rollback_action}
use nopager.Production.Promotion.{process_production_action}
use nopager.Production.Durable.{persist_verified_repair}
use nopager.Production.Dispatch.{
  ProductionHandler, rollback_action, production_action, land_repair, promoted_production,
  rolled_back_production, source_revert_review, source_recovery_production, durable_production,
  watch_source_recovery, watch_durable, watch_promoted, handle_production,
}
use nopager.Production.Dispatch.Calls.{
  IsSilent, pause-IsSilent, verify_source_revert_review-IsSilent,
  verify_rolled_back_production-IsSilent, verify_promoted_production-IsSilent,
  watch_promoted_production-IsSilent, verify_durable_production-IsSilent,
  watch_durable_production-IsSilent, verify_source_recovery_production-IsSilent,
  watch_source_recovery_production-IsSilent,
}
use nopager.Store.Schema.{Payload}
use nopager.Store.Deployments.{IncidentWork, incident_work}

module _ (run : Run) (payload : Payload) (s : Site) {incident : ℕ} {work : IncidentWork}
    (i : payload.incident_id ≡ some incident) (w : incident_work incident s.db ≡ ok work)
    (p : work.project.protection_paused ≡ true) where
  rollback_paused : IsSilent s (process_rollback_action run payload s)
  unfolding process_rollback_action
  rollback_paused = grind (arith, pause-IsSilent)

  action_paused : IsSilent s (process_production_action run payload s)
  unfolding process_production_action
  action_paused = grind (arith, pause-IsSilent)

  landing_paused : IsSilent s (persist_verified_repair run payload s)
  unfolding persist_verified_repair
  landing_paused = grind (arith, pause-IsSilent)

-- While a project is paused, no production job of its incidents asks Vercel for a promotion or a
-- rollback, or GitHub to land a repair.
pub handle_production_paused :
    (handler : ProductionHandler) (run : Run) (payload : Payload) (s : Site) {incident : ℕ}
    {work : IncidentWork}
    → payload.incident_id ≡ some incident
    → incident_work incident s.db ≡ ok work
    → work.project.protection_paused ≡ true
    → IsSilent s (handle_production handler run payload s)
unfolding handle_production
handle_production_paused rollback_action run payload s i w p = rollback_paused run payload s i w p
handle_production_paused production_action run payload s i w p = action_paused run payload s i w p
handle_production_paused land_repair run payload s i w p = landing_paused run payload s i w p
handle_production_paused promoted_production run payload s i w p =
    verify_promoted_production-IsSilent run payload s
handle_production_paused rolled_back_production run payload s i w p =
    verify_rolled_back_production-IsSilent run payload s
handle_production_paused source_revert_review run payload s i w p =
    verify_source_revert_review-IsSilent run payload s
handle_production_paused source_recovery_production run payload s i w p =
    verify_source_recovery_production-IsSilent run payload s
handle_production_paused durable_production run payload s i w p =
    verify_durable_production-IsSilent run payload s
handle_production_paused watch_source_recovery run payload s i w p =
    watch_source_recovery_production-IsSilent run payload s
handle_production_paused watch_durable run payload s i w p =
    watch_durable_production-IsSilent run payload s
handle_production_paused watch_promoted run payload s i w p =
    watch_promoted_production-IsSilent run payload s
