-- ===== src/Production/Dispatch/Termination.antt =====
-- Production jobs come to an end: apps/worker/src/main.rs and source_recovery.rs.
use Prim.Native.String.{String}
use nopager.Prelude.{ℕ, ◌+◌, ◌-◌, ◌<◌, ◌≤◌, true, arith, Option, some, none, Text, Result, ok, err}
use nopager.Connectors.Vercel.{Wire, ConnectorError, ProjectTarget}
use nopager.Production.Discovery.{
  ProductionDeployment, ProductionDiscovery, DiscoveryError, ProductionReadiness,
}
use nopager.Production.Site.{Site, Run, RevertPullRequestOutcome, PullRequestStatus, pause, Outcome}
use nopager.Production.Revert.{
  prepare_draft_source_revert, by_revert, await_review, review, review_status, review_merged,
  audit_source_recovery_failure,
}
use nopager.Production.Rollback.{
  begin_rollback, rollback_verified, by_readiness, rolled_back_action, poll_of,
  source_repair_merged, roll_back, block_rollback, roll_back_from, rollback_action,
}
use nopager.Production.Promotion.{
  by_discovery, promoted_production, watched, promoted, promote_action,
}
use nopager.Production.Durable.{
  begin_durable_rollback, durable, durable_watched, start_durable_watch, landed,
  ensure_durable_source_compatible, land_and_find_production, land_repair,
}
use nopager.Production.Recovery.{
  recovered_production, by_recovery, recovery_production, resolve_escalated_source_recovery,
  recovery_watched, recovery_watch, resolve_row,
}
use nopager.Production.Dispatch.Measure.{
  HasAdded, insert_job-HasAdded, added_none, transition_incident-jobs, escalate_incident-jobs,
  mark_deployment_known_good-jobs,
}
use nopager.Production.Dispatch.Polls.{
  cleanup-IsBelow, rollback-IsBelow, first_rollback_check-IsBelow, rollback_poll-IsBelow,
  first_promotion_check-IsBelow, promotion_poll-IsBelow, watch-IsBelow, landing-IsBelow,
  durable_check-IsBelow, durable_watch-IsBelow, review-IsBelow, recovery-IsBelow,
  recovery_watch-IsBelow,
}
use nopager.Store.Schema.{Payload, AttemptRow, RevertIdentity}
use nopager.Store.Deployments.{IncidentWork, save_deployment}

-- A run that enqueues only jobs with fewer than `n` steps left.
abbrev pub IsShorter : ℕ → Site → Outcome → Type 0
IsShorter n s outcome = HasAdded n s.db.jobs outcome.1.db.jobs

pub pause-IsShorter :
    (n : ℕ) (work : IncidentWork) (message : String) (s : Site)
    → IsShorter n s (pause work message s)
unfolding pause
pause-IsShorter n work message s = grind (arith, added_none, transition_incident-jobs)

module _ (work : IncidentWork) (n : ℕ) where
  pub begin_rollback-IsShorter :
      (attempt : ℕ) (s : Site) → 4000 < n → IsShorter n s (begin_rollback work attempt s)
  unfolding begin_rollback
  begin_rollback-IsShorter attempt s h0 = grind (
    arith,
    added_none,
    transition_incident-jobs,
    escalate_incident-jobs,
    insert_job-HasAdded,
    rollback-IsBelow work.incident.id attempt n none none h0,
  )

  pub begin_durable_rollback-IsShorter :
      (attempt : ℕ) (id : Text) (s : Site)
      → 4000 < n
      → IsShorter n s (begin_durable_rollback work attempt id s)
  unfolding begin_durable_rollback
  begin_durable_rollback-IsShorter attempt id s h0 = grind (
    arith,
    added_none,
    transition_incident-jobs,
    escalate_incident-jobs,
    insert_job-HasAdded,
    rollback-IsBelow work.incident.id attempt n (some true) (some id) h0,
  )

  await_review-IsShorter :
      (identity : RevertIdentity) (message : String) (s : Site)
      → 2116 < n
      → IsShorter n s (await_review work identity message s)
  unfolding await_review
  await_review-IsShorter identity message s h0 = grind (
    arith,
    added_none,
    transition_incident-jobs,
    insert_job-HasAdded,
    review-IsBelow work.incident.id identity n 0 h0,
  )

  by_revert-IsShorter :
      (o : Option RevertPullRequestOutcome) (s : Site)
      → 2116 < n
      → IsShorter n s (by_revert work o s)
  unfolding by_revert
  by_revert-IsShorter o s h0 =
      grind (arith, added_none, transition_incident-jobs, await_review-IsShorter)

  review_merged-IsShorter :
      (identity : RevertIdentity) (sha : Text) (s : Site)
      → 100 ≤ n
      → IsShorter n s (review_merged work identity sha s)
  unfolding review_merged
  review_merged-IsShorter identity sha s h0 =
      grind
        (arith, added_none, insert_job-HasAdded, recovery-IsBelow work.incident.id identity n 0 sha)

  review_status-IsShorter :
      (identity : RevertIdentity) (poll : ℕ) (r : Result ConnectorError PullRequestStatus)
      (s : Site)
      → 100 + (2016 - poll) ≤ n
      → IsShorter n s (review_status work identity poll r s)
  unfolding review_status audit_source_recovery_failure
  review_status-IsShorter identity poll r s h0 = grind (
    arith,
    added_none,
    insert_job-HasAdded,
    review-IsBelow work.incident.id identity n (poll + 1),
    review_merged-IsShorter,
  )

  pub review-IsShorter :
      (run : Run) (identity : RevertIdentity) (poll : ℕ) (s : Site)
      → 100 + (2016 - poll) ≤ n
      → IsShorter n s (review run work identity poll s)
  unfolding review audit_source_recovery_failure
  review-IsShorter run identity poll s h0 = grind (
    arith,
    added_none,
    insert_job-HasAdded,
    review-IsBelow work.incident.id identity n (poll + 1),
    review_status-IsShorter,
  )

  rollback_verified-IsShorter :
      (run : Run) (attempt : ℕ) (id : Text) (payload : Payload) (s : Site)
      → 2116 < n
      → IsShorter n s (rollback_verified run work attempt id payload s)
  unfolding rollback_verified prepare_draft_source_revert
  rollback_verified-IsShorter run attempt id payload s h0 = grind (
    arith,
    added_none,
    transition_incident-jobs,
    insert_job-HasAdded,
    by_revert-IsShorter,
    cleanup-IsBelow work.incident.id attempt n,
  )

  by_readiness-IsShorter :
      (run : Run) (attempt : ℕ) (id : Text) (payload : Payload)
      (r : Result DiscoveryError ProductionReadiness) (s : Site)
      → 2116 < n
      → 3000 + (61 - (poll_of payload + 1)) < n
      → IsShorter n s (by_readiness run work attempt id payload r s)
  unfolding by_readiness
  by_readiness-IsShorter run attempt id payload r s h0 h1 = grind (
    arith,
    added_none,
    escalate_incident-jobs,
    insert_job-HasAdded,
    rollback_verified-IsShorter,
    rollback_poll-IsBelow work.incident.id attempt n (poll_of payload + 1)
        (some (source_repair_merged payload)) h1,
  )

  pub rolled_back_action-IsShorter :
      (run : Run) (attempt : ℕ) (payload : Payload) (s : Site)
      → 3000 + (61 - poll_of payload) ≤ n
      → IsShorter n s (rolled_back_action run work attempt payload s)
  unfolding rolled_back_action
  rolled_back_action-IsShorter run attempt payload s h0 =
      grind (arith, added_none, escalate_incident-jobs, by_readiness-IsShorter)

  by_discovery-IsShorter :
      (run : Run) (attempt poll : ℕ) (r : Result DiscoveryError ProductionDiscovery) (s : Site)
      → 8003 < n
      → 9000 + (61 - (poll + 1)) < n
      → IsShorter n s (by_discovery run work attempt poll r s)
  unfolding by_discovery save_deployment
  by_discovery-IsShorter run attempt poll (err e) s h0 h1 =
      grind (arith, added_none, begin_rollback-IsShorter)
  by_discovery-IsShorter run attempt poll (ok ProductionDiscovery.pending) s h0 h1 = grind (
    arith,
    added_none,
    insert_job-HasAdded,
    promotion_poll-IsBelow work.incident.id attempt n (poll + 1) h1,
  )
  by_discovery-IsShorter run attempt poll (ok (ProductionDiscovery.ready d)) s h0 h1 = grind (
    arith,
    added_none,
    begin_rollback-IsShorter,
    insert_job-HasAdded,
    watch-IsBelow work.incident.id attempt n 0 d.id d.commit_sha h0,
  )

  pub promoted_production-IsShorter :
      (run : Run) (attempt poll : ℕ) (s : Site)
      → 9000 + (61 - poll) ≤ n
      → IsShorter n s (promoted_production run work attempt poll s)
  unfolding promoted_production
  promoted_production-IsShorter run attempt poll s h0 =
      grind (arith, added_none, by_discovery-IsShorter, begin_rollback-IsShorter)

  pub watched-IsShorter :
      (attempt check : ℕ) (id sha : Text) (s : Site)
      → 8000 + (3 - check) ≤ n
      → IsShorter n s (watched work attempt check id sha s)
  unfolding watched
  watched-IsShorter attempt check id sha s h0 = grind (
    arith,
    added_none,
    insert_job-HasAdded,
    watch-IsBelow work.incident.id attempt n (check + 1) id sha,
    landing-IsBelow work.incident.id attempt n 0,
  )

  pub durable_watched-IsShorter :
      (attempt check : ℕ) (id sha : Text) (s : Site)
      → 5000 + (3 - check) ≤ n
      → IsShorter n s (durable_watched work attempt check id sha s)
  unfolding durable_watched durable
  durable_watched-IsShorter attempt check id sha s h0 = grind (
    arith,
    added_none,
    transition_incident-jobs,
    mark_deployment_known_good-jobs,
    insert_job-HasAdded,
    durable_watch-IsBelow work.incident.id attempt n (check + 1) id sha,
    cleanup-IsBelow work.incident.id attempt n,
  )

  landed-IsShorter :
      (attempt : AttemptRow) (poll : ℕ) (sha : Text) (found : ProductionDiscovery) (s : Site)
      → 7000 + (61 - poll) ≤ n
      → poll ≤ 60
      → IsShorter n s (landed work attempt poll sha found s)
  unfolding landed save_deployment
  landed-IsShorter attempt poll sha ProductionDiscovery.pending s h0 h1 = grind (
    arith,
    added_none,
    insert_job-HasAdded,
    landing-IsBelow work.incident.id attempt.id n (poll + 1),
  )
  landed-IsShorter attempt poll sha (ProductionDiscovery.ready d) s h0 h1 = grind (
    arith,
    added_none,
    insert_job-HasAdded,
    durable_check-IsBelow work.incident.id attempt.id n d.id d.commit_sha,
  )

  pub land_repair-IsShorter :
      (run : Run) (attempt poll : ℕ) (s : Site)
      → 7000 + (61 - poll) ≤ n
      → poll ≤ 60
      → IsShorter n s (land_repair run work attempt poll s)
  unfolding land_repair land_and_find_production ensure_durable_source_compatible
  land_repair-IsShorter run attempt poll s h0 h1 = grind (arith, added_none, landed-IsShorter)

  roll_back-IsShorter :
      (wire : Wire) (project_id known_good : Text) (attempt : ℕ) (payload : Payload) (s : Site)
      → 4000 ≤ n
      → IsShorter n s (roll_back wire project_id known_good work attempt payload s)
  unfolding roll_back
  roll_back-IsShorter wire project_id known_good attempt payload s h0 = grind (
    arith,
    added_none,
    transition_incident-jobs,
    insert_job-HasAdded,
    first_rollback_check-IsBelow work.incident.id attempt n (some (source_repair_merged payload)),
  )

  roll_back_from-IsShorter :
      (wire : Wire) (project_id known_good : Text) (attempt : AttemptRow) (payload : Payload)
      (target : Option ProjectTarget) (s : Site)
      → 4000 ≤ n
      → IsShorter n s (roll_back_from wire project_id known_good work attempt payload target s)
  unfolding roll_back_from block_rollback
  roll_back_from-IsShorter wire project_id known_good attempt payload target s h0 =
      grind (arith, added_none, escalate_incident-jobs, roll_back-IsShorter)

  pub rollback_action-IsShorter :
      (run : Run) (attempt : ℕ) (payload : Payload) (s : Site)
      → 4000 ≤ n
      → IsShorter n s (rollback_action run work attempt payload s)
  unfolding rollback_action
  rollback_action-IsShorter run attempt payload s h0 =
      grind (arith, added_none, roll_back_from-IsShorter)

  promoted-IsShorter :
      (run : Run) (attempt : AttemptRow) (id : Text) (s : Site)
      → 10000 ≤ n
      → IsShorter n s (promoted run work attempt id s)
  unfolding promoted save_deployment
  promoted-IsShorter run attempt id s h0 = grind (
    arith,
    added_none,
    transition_incident-jobs,
    insert_job-HasAdded,
    first_promotion_check-IsBelow work.incident.id attempt.id n,
  )

  pub promote_action-IsShorter :
      (run : Run) (wire : Wire) (project_id : Text) (attempt : AttemptRow) (s : Site)
      → 10000 ≤ n
      → IsShorter n s (promote_action run wire project_id work attempt s)
  unfolding promote_action
  promote_action-IsShorter run wire project_id attempt s h0 =
      grind (arith, added_none, promoted-IsShorter)

  recovered_production-IsShorter :
      (run : Run) (wire : Wire) (project_id : Text) (identity : RevertIdentity) (sha : Text)
      (poll : ℕ) (d : ProductionDeployment) (s : Site)
      → 10 + (61 - poll) ≤ n
      → poll ≤ 60
      → IsShorter n s (recovered_production run wire project_id work identity sha poll d s)
  unfolding recovered_production save_deployment audit_source_recovery_failure
  recovered_production-IsShorter run wire project_id identity sha poll d s h0 h1 = grind (
    arith,
    added_none,
    insert_job-HasAdded,
    recovery-IsBelow work.incident.id identity n (poll + 1) sha,
    recovery_watch-IsBelow work.incident.id identity n 0 d.id sha,
  )

  by_recovery-IsShorter :
      (run : Run) (wire : Wire) (project_id : Text) (identity : RevertIdentity) (sha : Text)
      (poll : ℕ) (r : Result DiscoveryError ProductionDiscovery) (s : Site)
      → 10 + (61 - poll) ≤ n
      → poll ≤ 60
      → IsShorter n s (by_recovery run wire project_id work identity sha poll r s)
  unfolding by_recovery audit_source_recovery_failure
  by_recovery-IsShorter run wire project_id identity sha poll r s h0 h1 = grind (
    arith,
    added_none,
    recovered_production-IsShorter,
    insert_job-HasAdded,
    recovery-IsBelow work.incident.id identity n (poll + 1) sha,
  )

  pub recovery_production-IsShorter :
      (run : Run) (identity : RevertIdentity) (sha : Text) (poll : ℕ) (s : Site)
      → 10 + (61 - poll) ≤ n
      → IsShorter n s (recovery_production run work identity sha poll s)
  unfolding recovery_production audit_source_recovery_failure
  recovery_production-IsShorter run identity sha poll s h0 =
      grind (arith, added_none, by_recovery-IsShorter)

  recovery_watched-IsShorter :
      (run : Run) (identity : RevertIdentity) (sha id : Text) (check : ℕ) (s : Site)
      → 3 - check ≤ n
      → IsShorter n s (recovery_watched run work identity sha id check s)
  unfolding recovery_watched resolve_escalated_source_recovery audit_source_recovery_failure
      resolve_row
  recovery_watched-IsShorter run identity sha id check s h0 = grind (
    arith,
    added_none,
    mark_deployment_known_good-jobs,
    insert_job-HasAdded,
    recovery_watch-IsBelow work.incident.id identity n (check + 1) id sha,
  )

  pub recovery_watch-IsShorter :
      (run : Run) (identity : RevertIdentity) (sha id : Text) (check : ℕ) (s : Site)
      → 3 - check ≤ n
      → IsShorter n s (recovery_watch run work identity sha id check s)
  unfolding recovery_watch audit_source_recovery_failure
  recovery_watch-IsShorter run identity sha id check s h0 =
      grind (arith, added_none, recovery_watched-IsShorter)

  pub start_durable_watch-IsShorter :
      (attempt : ℕ) (id sha : Text) (s : Site)
      → 5003 < n
      → IsShorter n s (start_durable_watch work attempt id sha s)
  unfolding start_durable_watch
  start_durable_watch-IsShorter attempt id sha s h = grind (
    arith,
    added_none,
    insert_job-HasAdded,
    durable_watch-IsBelow work.incident.id attempt n 0 id sha h,
  )
