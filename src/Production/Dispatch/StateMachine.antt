-- ===== src/Production/Dispatch/StateMachine.antt =====
-- The production jobs that change production itself, and all of them together: apps/worker/src/main.rs.
use nopager.Prelude.{ℕ, arith, Option, Text}
use nopager.Connectors.Vercel.{Wire, ProjectTarget}
use nopager.Production.Discovery.{ProductionDiscovery}
use nopager.Production.Site.{Site, Run}
use nopager.Production.Rollback.{
  roll_back, block_rollback, roll_back_from, rollback_action, process_rollback_action,
}
use nopager.Production.Promotion.{promoted, promote_action, process_production_action}
use nopager.Production.Durable.{
  landed, ensure_durable_source_compatible, land_and_find_production, land_repair,
  persist_verified_repair,
}
use nopager.Production.Dispatch.{ProductionHandler, handle_production}
use nopager.Production.Dispatch.Moves.{
  AreMoved-refl, insert_job-incidents, moved_from, escalated_from,
}
use nopager.Production.Dispatch.Transitions.{
  IsLegal, pause-IsLegal, verify_source_revert_review-IsLegal,
  verify_rolled_back_production-IsLegal, verify_promoted_production-IsLegal,
  watch_promoted_production-IsLegal, verify_durable_production-IsLegal,
  watch_durable_production-IsLegal, verify_source_recovery_production-IsLegal,
  watch_source_recovery_production-IsLegal,
}
use nopager.Store.Schema.{Payload, AttemptRow}
use nopager.Store.Deployments.{IncidentWork, save_deployment}

module _ (work : IncidentWork) where
  roll_back-IsLegal :
      (wire : Wire) (project_id known_good : Text) (attempt : ℕ) (payload : Payload) (s : Site)
      → IsLegal s (roll_back wire project_id known_good work attempt payload s)
  unfolding roll_back
  roll_back-IsLegal wire project_id known_good attempt payload s =
      grind (arith, AreMoved-refl, moved_from, insert_job-incidents)

  roll_back_from-IsLegal :
      (wire : Wire) (project_id known_good : Text) (attempt : AttemptRow) (payload : Payload)
      (target : Option ProjectTarget) (s : Site)
      → IsLegal s (roll_back_from wire project_id known_good work attempt payload target s)
  unfolding roll_back_from block_rollback
  roll_back_from-IsLegal wire project_id known_good attempt payload target s =
      grind (arith, AreMoved-refl, escalated_from, roll_back-IsLegal)

  rollback_action-IsLegal :
      (run : Run) (attempt : ℕ) (payload : Payload) (s : Site)
      → IsLegal s (rollback_action run work attempt payload s)
  unfolding rollback_action
  rollback_action-IsLegal run attempt payload s =
      grind (arith, AreMoved-refl, roll_back_from-IsLegal)

  promoted-IsLegal :
      (run : Run) (attempt : AttemptRow) (id : Text) (s : Site)
      → IsLegal s (promoted run work attempt id s)
  unfolding promoted save_deployment
  promoted-IsLegal run attempt id s = grind (arith, AreMoved-refl, moved_from, insert_job-incidents)

  promote_action-IsLegal :
      (run : Run) (wire : Wire) (project_id : Text) (attempt : AttemptRow) (s : Site)
      → IsLegal s (promote_action run wire project_id work attempt s)
  unfolding promote_action
  promote_action-IsLegal run wire project_id attempt s =
      grind (arith, AreMoved-refl, promoted-IsLegal)

  landed-IsLegal :
      (attempt : AttemptRow) (poll : ℕ) (merge_sha : Text) (found : ProductionDiscovery) (s : Site)
      → IsLegal s (landed work attempt poll merge_sha found s)
  unfolding landed save_deployment
  landed-IsLegal attempt poll merge_sha found s = grind (arith, AreMoved-refl, insert_job-incidents)

  land_repair-IsLegal :
      (run : Run) (attempt poll : ℕ) (s : Site) → IsLegal s (land_repair run work attempt poll s)
  unfolding land_repair land_and_find_production ensure_durable_source_compatible
  land_repair-IsLegal run attempt poll s = grind (arith, AreMoved-refl, landed-IsLegal)

module _ (run : Run) (payload : Payload) (s : Site) where
  process_rollback_action-IsLegal : IsLegal s (process_rollback_action run payload s)
  unfolding process_rollback_action
  process_rollback_action-IsLegal =
      grind (arith, AreMoved-refl, pause-IsLegal, rollback_action-IsLegal)

  process_production_action-IsLegal : IsLegal s (process_production_action run payload s)
  unfolding process_production_action
  process_production_action-IsLegal =
      grind (arith, AreMoved-refl, pause-IsLegal, promote_action-IsLegal)

  persist_verified_repair-IsLegal : IsLegal s (persist_verified_repair run payload s)
  unfolding persist_verified_repair
  persist_verified_repair-IsLegal = grind (arith, AreMoved-refl, pause-IsLegal, land_repair-IsLegal)

-- Whatever Vercel, GitHub and the health check answer, and whether it succeeds or fails, a production
-- job keeps the incidents and moves each at most along one transition that the state machine of the
-- core allows, or from escalated to resolved.
pub handle_production-IsLegal :
    (handler : ProductionHandler) (run : Run) (payload : Payload) (s : Site)
    → IsLegal s (handle_production handler run payload s)
unfolding handle_production
handle_production-IsLegal handler run payload s = grind (
  arith, process_rollback_action-IsLegal, process_production_action-IsLegal,
  persist_verified_repair-IsLegal, verify_source_revert_review-IsLegal,
  verify_rolled_back_production-IsLegal, verify_promoted_production-IsLegal,
  watch_promoted_production-IsLegal, verify_durable_production-IsLegal,
  watch_durable_production-IsLegal, verify_source_recovery_production-IsLegal,
  watch_source_recovery_production-IsLegal,
)
