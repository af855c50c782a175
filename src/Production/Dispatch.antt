-- ===== src/Production/Dispatch.antt =====
-- apps/worker/src/main.rs: the part of `execute_job` that chooses a handler for a production job; the
-- action "promote" is left to `execute_job` of legacy_pipeline.rs.
pub mod Calls
pub mod Paused
pub mod Moves
pub mod Transitions
pub mod StateMachine
pub mod Measure
pub mod Polls
pub mod Termination
pub mod Chains
mod Tests
use nopager.Prelude.{Bool, ◌&&◌, Option, none, some, Text, text, text_eq, if◌then◌else◌}
use nopager.Connectors.Vercel.{is_text}
use nopager.Production.Site.{Site, Run, Outcome}
use nopager.Production.Revert.{verify_source_revert_review}
use nopager.Production.Rollback.{process_rollback_action, verify_rolled_back_production}
use nopager.Production.Promotion.{
  process_production_action, verify_promoted_production, watch_promoted_production,
}
use nopager.Production.Durable.{
  persist_verified_repair, verify_durable_production, watch_durable_production,
}
use nopager.Production.Recovery.{
  verify_source_recovery_production, watch_source_recovery_production,
}
use nopager.Store.Schema.{Payload}

pub data ProductionHandler : Type 0 where
  rollback_action production_action land_repair promoted_production rolled_back_production
        source_revert_review source_recovery_production durable_production watch_source_recovery
        watch_durable watch_promoted :
      ProductionHandler

-- The handler of a job type and a payload; `none` where no production handler takes the job.
unfoldable pub route : Text → Payload → Option ProductionHandler
route job_type payload =
    if text_eq job_type (text "production-action")
    then (if is_text payload.action (text "rollback")
        then some rollback_action
        else if is_text payload.action (text "land-repair")
        then some land_repair
        else some production_action)
    else if text_eq job_type (text "verify")
    then (if is_text payload.phase (text "production")
        then some promoted_production
        else if is_text payload.phase (text "rollback")
        then some rolled_back_production
        else if is_text payload.phase (text "source-revert-review")
        then some source_revert_review
        else if is_text payload.phase (text "source-recovery-production")
        then some source_recovery_production
        else if is_text payload.phase (text "durable-production")
        then some durable_production
        else none)
    else if text_eq job_type (text "post-deploy-watch")
    then (if is_text payload.phase (text "source-recovery-production")
        then some watch_source_recovery
        else if is_text payload.phase (text "durable-production")
        then some watch_durable
        else some watch_promoted)
    else none

unfoldable pub handle_production : ProductionHandler → Run → Payload → Site → Outcome
handle_production rollback_action = process_rollback_action
handle_production production_action = process_production_action
handle_production land_repair = persist_verified_repair
handle_production promoted_production = verify_promoted_production
handle_production rolled_back_production = verify_rolled_back_production
handle_production source_revert_review = verify_source_revert_review
handle_production source_recovery_production = verify_source_recovery_production
handle_production durable_production = verify_durable_production
handle_production watch_source_recovery = watch_source_recovery_production
handle_production watch_durable = watch_durable_production
handle_production watch_promoted = watch_promoted_production
