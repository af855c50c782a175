-- ===== src/Production/Dispatch/Transitions.antt =====
-- The production jobs move incidents only as the state machine allows: apps/worker/src/main.rs and
-- source_recovery.rs, over crates/nopager-core/src/lib.rs.
use Prim.Native.String.{String}
use nopager.Prelude.{ℕ, false, ◌≡◌, refl, sym, inr, arith, Option, some, List, Text, Result}
use nopager.Connectors.Vercel.{Wire}
use nopager.Production.Discovery.{
  ProductionDeployment, ProductionDiscovery, DiscoveryError, ProductionReadiness,
}
use nopager.Production.Site.{Site, Run, RevertPullRequestOutcome, PullRequestStatus, pause, Outcome}
use nopager.Connectors.Vercel.{ConnectorError}
use nopager.Production.Revert.{
  prepare_draft_source_revert, by_revert, await_review, verify_source_revert_review, review,
  review_status, review_merged, audit_source_recovery_failure,
}
use nopager.Production.Rollback.{
  begin_rollback, rollback_verified, by_readiness, rolled_back_action,
  verify_rolled_back_production,
}
use nopager.Production.Promotion.{
  by_discovery, promoted_production, verify_promoted_production, watched, watch_promoted_production,
}
use nopager.Production.Durable.{
  begin_durable_rollback, durable, durable_watched, check_durable, start_durable_watch,
  verify_durable_production, watch_durable_production,
}
use nopager.Production.Recovery.{
  recovered_production, by_recovery, recovery_production, verify_source_recovery_production,
  resolve_escalated_source_recovery, recovery_watched, recovery_watch,
  watch_source_recovery_production, is_escalated, resolve_row,
}
use nopager.Store.Schema.{Payload, RevertIdentity, IncidentRow, Database}
use nopager.Store.Deployments.{IncidentWork, save_deployment}
use nopager.Production.Dispatch.Moves.{
  AreMoved, AreMoved-refl, AreMoved-update, insert_job-incidents, moved_from, escalated_from,
  mark-incidents,
}
use nopager.Core.Incident.{resolved, state_eq_iff}

abbrev pub IsLegal : Site → Outcome → Type 0
IsLegal s outcome = AreMoved s.db.incidents outcome.1.db.incidents

resolve_row-AreMoved :
    (work : IncidentWork) (id : Text) (is : List IncidentRow) (db : Database)
    → db.incidents ≡ is
    → AreMoved is (resolve_row work id db).incidents
unfolding resolve_row
resolve_row-AreMoved work id is db e = rw (sym e) (
    AreMoved-update (is_escalated work)
      (λ (i : IncidentRow). record i {
        status = resolved;
        resolved_at = some db.clock;
        autonomous_resolution = false;
      })
      (λ i m. record {
        same_id = refl;
        same_project = refl;
        is_allowed = inr (inr (grind (arith, state_eq_iff), refl));
      })
      db.incidents)

pub pause-IsLegal :
    (work : IncidentWork) (message : String) (s : Site) → IsLegal s (pause work message s)
unfolding pause
pause-IsLegal work message s = grind (
  arith, AreMoved-refl, moved_from, escalated_from, insert_job-incidents, mark-incidents,
  resolve_row-AreMoved,
)

module _ (work : IncidentWork) where
  begin_rollback-IsLegal : (attempt : ℕ) (s : Site) → IsLegal s (begin_rollback work attempt s)
  unfolding begin_rollback
  begin_rollback-IsLegal attempt s = grind (
    arith, AreMoved-refl, moved_from, escalated_from, insert_job-incidents, mark-incidents,
    resolve_row-AreMoved,
  )

  begin_durable_rollback-IsLegal :
      (attempt : ℕ) (id : Text) (s : Site) → IsLegal s (begin_durable_rollback work attempt id s)
  unfolding begin_durable_rollback
  begin_durable_rollback-IsLegal attempt id s = grind (
    arith, AreMoved-refl, moved_from, escalated_from, insert_job-incidents, mark-incidents,
    resolve_row-AreMoved,
  )

  by_revert-IsLegal :
      (o : Option RevertPullRequestOutcome) (s : Site) → IsLegal s (by_revert work o s)
  unfolding by_revert await_review
  by_revert-IsLegal o s = grind (
    arith, AreMoved-refl, moved_from, escalated_from, insert_job-incidents, mark-incidents,
    resolve_row-AreMoved,
  )

  review_status-IsLegal :
      (identity : RevertIdentity) (poll : ℕ) (r : Result ConnectorError PullRequestStatus)
      (s : Site)
      → IsLegal s (review_status work identity poll r s)
  unfolding review_status review_merged audit_source_recovery_failure
  review_status-IsLegal identity poll r s = grind (
    arith, AreMoved-refl, moved_from, escalated_from, insert_job-incidents, mark-incidents,
    resolve_row-AreMoved,
  )

  review-IsLegal :
      (run : Run) (identity : RevertIdentity) (poll : ℕ) (s : Site)
      → IsLegal s (review run work identity poll s)
  unfolding review audit_source_recovery_failure
  review-IsLegal run identity poll s = grind (
    arith, AreMoved-refl, moved_from, escalated_from, insert_job-incidents, mark-incidents,
    resolve_row-AreMoved, review_status-IsLegal,
  )

  rollback_verified-IsLegal :
      (run : Run) (attempt : ℕ) (id : Text) (payload : Payload) (s : Site)
      → IsLegal s (rollback_verified run work attempt id payload s)
  unfolding rollback_verified prepare_draft_source_revert
  rollback_verified-IsLegal run attempt id payload s = grind (
    arith, AreMoved-refl, moved_from, escalated_from, insert_job-incidents, mark-incidents,
    resolve_row-AreMoved, by_revert-IsLegal,
  )

  by_readiness-IsLegal :
      (run : Run) (attempt : ℕ) (id : Text) (payload : Payload)
      (r : Result DiscoveryError ProductionReadiness) (s : Site)
      → IsLegal s (by_readiness run work attempt id payload r s)
  unfolding by_readiness
  by_readiness-IsLegal run attempt id payload r s = grind (
    arith, AreMoved-refl, moved_from, escalated_from, insert_job-incidents, mark-incidents,
    resolve_row-AreMoved, rollback_verified-IsLegal,
  )

  rolled_back_action-IsLegal :
      (run : Run) (attempt : ℕ) (payload : Payload) (s : Site)
      → IsLegal s (rolled_back_action run work attempt payload s)
  unfolding rolled_back_action
  rolled_back_action-IsLegal run attempt payload s = grind (
    arith, AreMoved-refl, moved_from, escalated_from, insert_job-incidents, mark-incidents,
    resolve_row-AreMoved, by_readiness-IsLegal,
  )

  by_discovery-IsLegal :
      (run : Run) (attempt poll : ℕ) (r : Result DiscoveryError ProductionDiscovery) (s : Site)
      → IsLegal s (by_discovery run work attempt poll r s)
  unfolding by_discovery save_deployment
  by_discovery-IsLegal run attempt poll r s = grind (
    arith, AreMoved-refl, moved_from, escalated_from, insert_job-incidents, mark-incidents,
    resolve_row-AreMoved, begin_rollback-IsLegal,
  )

  promoted_production-IsLegal :
      (run : Run) (attempt poll : ℕ) (s : Site)
      → IsLegal s (promoted_production run work attempt poll s)
  unfolding promoted_production
  promoted_production-IsLegal run attempt poll s = grind (
    arith, AreMoved-refl, moved_from, escalated_from, insert_job-incidents, mark-incidents,
    resolve_row-AreMoved, by_discovery-IsLegal, begin_rollback-IsLegal,
  )

  watched-IsLegal :
      (attempt check : ℕ) (id sha : Text) (s : Site)
      → IsLegal s (watched work attempt check id sha s)
  unfolding watched
  watched-IsLegal attempt check id sha s = grind (
    arith, AreMoved-refl, moved_from, escalated_from, insert_job-incidents, mark-incidents,
    resolve_row-AreMoved,
  )

  durable_watched-IsLegal :
      (attempt check : ℕ) (id sha : Text) (s : Site)
      → IsLegal s (durable_watched work attempt check id sha s)
  unfolding durable_watched durable
  durable_watched-IsLegal attempt check id sha s = grind (
    arith, AreMoved-refl, moved_from, escalated_from, insert_job-incidents, mark-incidents,
    resolve_row-AreMoved,
  )

  recovered_production-IsLegal :
      (run : Run) (wire : Wire) (project_id : Text) (identity : RevertIdentity) (sha : Text)
      (poll : ℕ) (d : ProductionDeployment) (s : Site)
      → IsLegal s (recovered_production run wire project_id work identity sha poll d s)
  unfolding recovered_production save_deployment audit_source_recovery_failure
  recovered_production-IsLegal run wire project_id identity sha poll d s = grind (
    arith, AreMoved-refl, moved_from, escalated_from, insert_job-incidents, mark-incidents,
    resolve_row-AreMoved,
  )

  by_recovery-IsLegal :
      (run : Run) (wire : Wire) (project_id : Text) (identity : RevertIdentity) (sha : Text)
      (poll : ℕ) (r : Result DiscoveryError ProductionDiscovery) (s : Site)
      → IsLegal s (by_recovery run wire project_id work identity sha poll r s)
  unfolding by_recovery audit_source_recovery_failure
  by_recovery-IsLegal run wire project_id identity sha poll r s = grind (
    arith, AreMoved-refl, moved_from, escalated_from, insert_job-incidents, mark-incidents,
    resolve_row-AreMoved, recovered_production-IsLegal,
  )

  recovery_production-IsLegal :
      (run : Run) (identity : RevertIdentity) (sha : Text) (poll : ℕ) (s : Site)
      → IsLegal s (recovery_production run work identity sha poll s)
  unfolding recovery_production audit_source_recovery_failure
  recovery_production-IsLegal run identity sha poll s = grind (
    arith, AreMoved-refl, moved_from, escalated_from, insert_job-incidents, mark-incidents,
    resolve_row-AreMoved, by_recovery-IsLegal,
  )

  recovery_watched-IsLegal :
      (run : Run) (identity : RevertIdentity) (sha id : Text) (check : ℕ) (s : Site)
      → IsLegal s (recovery_watched run work identity sha id check s)
  unfolding recovery_watched resolve_escalated_source_recovery audit_source_recovery_failure
  recovery_watched-IsLegal run identity sha id check s = grind (
    arith, AreMoved-refl, moved_from, escalated_from, insert_job-incidents, mark-incidents,
    resolve_row-AreMoved,
  )

  recovery_watch-IsLegal :
      (run : Run) (identity : RevertIdentity) (sha id : Text) (check : ℕ) (s : Site)
      → IsLegal s (recovery_watch run work identity sha id check s)
  unfolding recovery_watch audit_source_recovery_failure
  recovery_watch-IsLegal run identity sha id check s = grind (
    arith, AreMoved-refl, moved_from, escalated_from, insert_job-incidents, mark-incidents,
    resolve_row-AreMoved, recovery_watched-IsLegal,
  )

module _ (run : Run) (payload : Payload) (s : Site) where
  pub verify_source_revert_review-IsLegal : IsLegal s (verify_source_revert_review run payload s)
  unfolding verify_source_revert_review
  verify_source_revert_review-IsLegal = grind (
    arith, AreMoved-refl, moved_from, escalated_from, insert_job-incidents, mark-incidents,
    resolve_row-AreMoved, review-IsLegal,
  )

  pub verify_rolled_back_production-IsLegal :
      IsLegal s (verify_rolled_back_production run payload s)
  unfolding verify_rolled_back_production
  verify_rolled_back_production-IsLegal = grind (
    arith, AreMoved-refl, moved_from, escalated_from, insert_job-incidents, mark-incidents,
    resolve_row-AreMoved, rolled_back_action-IsLegal,
  )

  pub verify_promoted_production-IsLegal : IsLegal s (verify_promoted_production run payload s)
  unfolding verify_promoted_production
  verify_promoted_production-IsLegal = grind (
    arith, AreMoved-refl, moved_from, escalated_from, insert_job-incidents, mark-incidents,
    resolve_row-AreMoved, promoted_production-IsLegal,
  )

  pub watch_promoted_production-IsLegal : IsLegal s (watch_promoted_production run payload s)
  unfolding watch_promoted_production
  watch_promoted_production-IsLegal = grind (
    arith, AreMoved-refl, moved_from, escalated_from, insert_job-incidents, mark-incidents,
    resolve_row-AreMoved, watched-IsLegal, begin_rollback-IsLegal,
  )

  pub verify_durable_production-IsLegal : IsLegal s (verify_durable_production run payload s)
  unfolding verify_durable_production check_durable start_durable_watch
  verify_durable_production-IsLegal = grind (
    arith, AreMoved-refl, moved_from, escalated_from, insert_job-incidents, mark-incidents,
    resolve_row-AreMoved, begin_durable_rollback-IsLegal,
  )

  pub watch_durable_production-IsLegal : IsLegal s (watch_durable_production run payload s)
  unfolding watch_durable_production check_durable
  watch_durable_production-IsLegal = grind (
    arith, AreMoved-refl, moved_from, escalated_from, insert_job-incidents, mark-incidents,
    resolve_row-AreMoved, begin_durable_rollback-IsLegal, durable_watched-IsLegal,
  )

  pub verify_source_recovery_production-IsLegal :
      IsLegal s (verify_source_recovery_production run payload s)
  unfolding verify_source_recovery_production
  verify_source_recovery_production-IsLegal = grind (
    arith, AreMoved-refl, moved_from, escalated_from, insert_job-incidents, mark-incidents,
    resolve_row-AreMoved, recovery_production-IsLegal,
  )

  pub watch_source_recovery_production-IsLegal :
      IsLegal s (watch_source_recovery_production run payload s)
  unfolding watch_source_recovery_production
  watch_source_recovery_production-IsLegal = grind (
    arith, AreMoved-refl, moved_from, escalated_from, insert_job-incidents, mark-incidents,
    resolve_row-AreMoved, recovery_watch-IsLegal,
  )
