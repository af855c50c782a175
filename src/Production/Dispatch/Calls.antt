-- ===== src/Production/Dispatch/Calls.antt =====
-- Which production jobs ask Vercel or GitHub for a change: apps/worker/src/main.rs.
use Prim.Native.String.{String}
use nopager.Prelude.{ℕ, ◌≡◌, arith, Option, List, Text, Result}
use nopager.Connectors.Vercel.{Wire}
use nopager.Production.Discovery.{
  ProductionDeployment, ProductionDiscovery, DiscoveryError, ProductionReadiness,
}
use nopager.Production.Site.{Site, Run, RevertPullRequestOutcome, PullRequestStatus, pause, Outcome}
use nopager.Connectors.Vercel.{ConnectorError}
use nopager.Production.Revert.{
  prepare_draft_source_revert, by_revert, await_review, verify_source_revert_review, review,
  review_status, review_merged, audit_source_recovery_failure,
}
use nopager.Production.Rollback.{
  begin_rollback, rollback_verified, by_readiness, rolled_back_action,
  verify_rolled_back_production,
}
use nopager.Production.Promotion.{
  by_discovery, promoted_production, verify_promoted_production, watched, watch_promoted_production,
}
use nopager.Production.Durable.{
  begin_durable_rollback, durable, durable_watched, check_durable, start_durable_watch,
  verify_durable_production, watch_durable_production,
}
use nopager.Production.Recovery.{
  recovered_production, by_recovery, recovery_production, verify_source_recovery_production,
  resolve_escalated_source_recovery, recovery_watched, recovery_watch,
  watch_source_recovery_production,
}
use nopager.Store.Schema.{Payload, RevertIdentity}
use nopager.Store.Deployments.{IncidentWork}

-- What Vercel and GitHub were asked to change.
abbrev pub calls : Site → List Text × List Text × List ℕ
calls s = (s.rollbacks, s.promotions, s.landings)

abbrev pub IsSilent : Site → Outcome → Type 0
IsSilent s outcome = calls outcome.1 ≡ calls s

pub pause-IsSilent :
    (work : IncidentWork) (message : String) (s : Site) → IsSilent s (pause work message s)
unfolding pause
pause-IsSilent work message s = grind arith

module _ (work : IncidentWork) where
  begin_rollback-IsSilent : (attempt : ℕ) (s : Site) → IsSilent s (begin_rollback work attempt s)
  unfolding begin_rollback
  begin_rollback-IsSilent attempt s = grind arith

  begin_durable_rollback-IsSilent :
      (attempt : ℕ) (id : Text) (s : Site) → IsSilent s (begin_durable_rollback work attempt id s)
  unfolding begin_durable_rollback
  begin_durable_rollback-IsSilent attempt id s = grind arith

  by_revert-IsSilent :
      (o : Option RevertPullRequestOutcome) (s : Site) → IsSilent s (by_revert work o s)
  unfolding by_revert await_review
  by_revert-IsSilent o s = grind arith

  review_status-IsSilent :
      (identity : RevertIdentity) (poll : ℕ) (r : Result ConnectorError PullRequestStatus)
      (s : Site)
      → IsSilent s (review_status work identity poll r s)
  unfolding review_status review_merged audit_source_recovery_failure
  review_status-IsSilent identity poll r s = grind arith

  review-IsSilent :
      (run : Run) (identity : RevertIdentity) (poll : ℕ) (s : Site)
      → IsSilent s (review run work identity poll s)
  unfolding review audit_source_recovery_failure
  review-IsSilent run identity poll s = grind (arith, review_status-IsSilent)

  rollback_verified-IsSilent :
      (run : Run) (attempt : ℕ) (id : Text) (payload : Payload) (s : Site)
      → IsSilent s (rollback_verified run work attempt id payload s)
  unfolding rollback_verified prepare_draft_source_revert
  rollback_verified-IsSilent run attempt id payload s = grind (arith, by_revert-IsSilent)

  by_readiness-IsSilent :
      (run : Run) (attempt : ℕ) (id : Text) (payload : Payload)
      (r : Result DiscoveryError ProductionReadiness) (s : Site)
      → IsSilent s (by_readiness run work attempt id payload r s)
  unfolding by_readiness
  by_readiness-IsSilent run attempt id payload r s = grind (arith, rollback_verified-IsSilent)

  rolled_back_action-IsSilent :
      (run : Run) (attempt : ℕ) (payload : Payload) (s : Site)
      → IsSilent s (rolled_back_action run work attempt payload s)
  unfolding rolled_back_action
  rolled_back_action-IsSilent run attempt payload s = grind (arith, by_readiness-IsSilent)

  by_discovery-IsSilent :
      (run : Run) (attempt poll : ℕ) (r : Result DiscoveryError ProductionDiscovery) (s : Site)
      → IsSilent s (by_discovery run work attempt poll r s)
  unfolding by_discovery
  by_discovery-IsSilent run attempt poll r s = grind (arith, begin_rollback-IsSilent)

  promoted_production-IsSilent :
      (run : Run) (attempt poll : ℕ) (s : Site)
      → IsSilent s (promoted_production run work attempt poll s)
  unfolding promoted_production
  promoted_production-IsSilent run attempt poll s =
      grind (arith, by_discovery-IsSilent, begin_rollback-IsSilent)

  watched-IsSilent :
      (attempt check : ℕ) (id sha : Text) (s : Site)
      → IsSilent s (watched work attempt check id sha s)
  unfolding watched
  watched-IsSilent attempt check id sha s = grind arith

  durable_watched-IsSilent :
      (attempt check : ℕ) (id sha : Text) (s : Site)
      → IsSilent s (durable_watched work attempt check id sha s)
  unfolding durable_watched durable
  durable_watched-IsSilent attempt check id sha s = grind arith

  recovered_production-IsSilent :
      (run : Run) (wire : Wire) (project_id : Text) (identity : RevertIdentity) (sha : Text)
      (poll : ℕ) (d : ProductionDeployment) (s : Site)
      → IsSilent s (recovered_production run wire project_id work identity sha poll d s)
  unfolding recovered_production audit_source_recovery_failure
  recovered_production-IsSilent run wire project_id identity sha poll d s = grind arith

  by_recovery-IsSilent :
      (run : Run) (wire : Wire) (project_id : Text) (identity : RevertIdentity) (sha : Text)
      (poll : ℕ) (r : Result DiscoveryError ProductionDiscovery) (s : Site)
      → IsSilent s (by_recovery run wire project_id work identity sha poll r s)
  unfolding by_recovery audit_source_recovery_failure
  by_recovery-IsSilent run wire project_id identity sha poll r s =
      grind (arith, recovered_production-IsSilent)

  recovery_production-IsSilent :
      (run : Run) (identity : RevertIdentity) (sha : Text) (poll : ℕ) (s : Site)
      → IsSilent s (recovery_production run work identity sha poll s)
  unfolding recovery_production audit_source_recovery_failure
  recovery_production-IsSilent run identity sha poll s = grind (arith, by_recovery-IsSilent)

  recovery_watched-IsSilent :
      (run : Run) (identity : RevertIdentity) (sha id : Text) (check : ℕ) (s : Site)
      → IsSilent s (recovery_watched run work identity sha id check s)
  unfolding recovery_watched resolve_escalated_source_recovery audit_source_recovery_failure
  recovery_watched-IsSilent run identity sha id check s = grind arith

  recovery_watch-IsSilent :
      (run : Run) (identity : RevertIdentity) (sha id : Text) (check : ℕ) (s : Site)
      → IsSilent s (recovery_watch run work identity sha id check s)
  unfolding recovery_watch audit_source_recovery_failure
  recovery_watch-IsSilent run identity sha id check s = grind (arith, recovery_watched-IsSilent)

module _ (run : Run) (payload : Payload) (s : Site) where
  pub verify_source_revert_review-IsSilent : IsSilent s (verify_source_revert_review run payload s)
  unfolding verify_source_revert_review
  verify_source_revert_review-IsSilent = grind (arith, review-IsSilent)

  pub verify_rolled_back_production-IsSilent :
      IsSilent s (verify_rolled_back_production run payload s)
  unfolding verify_rolled_back_production
  verify_rolled_back_production-IsSilent = grind (arith, rolled_back_action-IsSilent)

  pub verify_promoted_production-IsSilent : IsSilent s (verify_promoted_production run payload s)
  unfolding verify_promoted_production
  verify_promoted_production-IsSilent = grind (arith, promoted_production-IsSilent)

  pub watch_promoted_production-IsSilent : IsSilent s (watch_promoted_production run payload s)
  unfolding watch_promoted_production
  watch_promoted_production-IsSilent = grind (arith, watched-IsSilent, begin_rollback-IsSilent)

  pub verify_durable_production-IsSilent : IsSilent s (verify_durable_production run payload s)
  unfolding verify_durable_production check_durable start_durable_watch
  verify_durable_production-IsSilent = grind (arith, begin_durable_rollback-IsSilent)

  pub watch_durable_production-IsSilent : IsSilent s (watch_durable_production run payload s)
  unfolding watch_durable_production check_durable
  watch_durable_production-IsSilent =
      grind (arith, begin_durable_rollback-IsSilent, durable_watched-IsSilent)

  pub verify_source_recovery_production-IsSilent :
      IsSilent s (verify_source_recovery_production run payload s)
  unfolding verify_source_recovery_production
  verify_source_recovery_production-IsSilent = grind (arith, recovery_production-IsSilent)

  pub watch_source_recovery_production-IsSilent :
      IsSilent s (watch_source_recovery_production run payload s)
  unfolding watch_source_recovery_production
  watch_source_recovery_production-IsSilent = grind (arith, recovery_watch-IsSilent)
