-- ===== src/Production/Dispatch/Tests.antt =====
-- A chain of production jobs and the end of a source recovery (apps/worker/src/main.rs,
-- source_recovery.rs).
use nopager.Prelude.{◌≤◌, true, false, ◌≡◌, refl, arith, some, none, ok, [], ◌∷◌, text}
use mathlib.Core.List.Memᴰ.{head, not-nil}
use nopager.Core.Incident.{verifying_production, escalated}
use nopager.Production.Site.{Site, Run, attempt_payload}
use nopager.Production.Examples.{
  run_production, vercel_project, sha, wire, run, db, site, revert, deployed,
}
use nopager.Production.Revert.{recovery_payload}
use nopager.Production.Recovery.{watch_source_recovery_production}
use nopager.Production.Baseline.{IsRecoveryWatch, watch_source_recovery_production-IsRecoveryWatch}
use nopager.Production.Dispatch.{ProductionHandler}
use nopager.Production.Dispatch.Measure.{steps_left}
use nopager.Production.Dispatch.Chains.{enqueued, end_of_chain, Chain-steps_left}
use nopager.Store.Schema.{Payload, JobRow, JobStatus, add_audit_event}

-- The project has no current production yet.
abbrev waiting : Run
waiting = record (run true) {
  vercel = some (record wire {
    project = λ _. ok (record vercel_project { production = none });
    deployments = λ _. ok [];
  });
}

abbrev first_payload : Payload
first_payload = record (attempt_payload 7 5) { phase = some (text "production") }

abbrev poll_job : JobRow
poll_job = record {
  id = 10;
  job_type = text "verify";
  idempotency_key = record { family = text "incident:verify-production"; parts = 7 ∷ 1 ∷ [] };
  payload = record first_payload { poll = some 1 };
  status = JobStatus.pending;
  attempt = 0;
  max_attempts = 3;
  available_at = 55;
  locked_by = none;
}

Chain-steps_left_example :
    (1 ≤ steps_left ProductionHandler.promoted_production first_payload)
    × (steps_left ProductionHandler.promoted_production first_payload ≤ 10000)
unfolding run_production
Chain-steps_left_example = Chain-steps_left ProductionHandler.promoted_production first_payload 1 (
    enqueued {handler = ProductionHandler.promoted_production}
      {next = ProductionHandler.promoted_production} {payload = first_payload} {length = 0}
      {job = poll_job} waiting (site verifying_production false)
      (record { is_there = head refl; was_not_there = not-nil }) refl end_of_chain)

abbrev last_watch : Payload
last_watch = record (recovery_payload 7 revert sha) {
  check = some 2;
  production_deployment_id = some (text "dpl_new");
}

-- The worker has recorded that it opened the revert.
abbrev attested : Site
attested = record (site escalated false) {
  db =
      add_audit_event 1 (some 7) "worker" "github.repair_pr.revert_created" none "success"
        (some revert) (db escalated false);
}

moved_baseline :
    (watch_source_recovery_production (run true) last_watch attested).1.db.deployments
    ≡ deployed (text "dpl_new") true ∷ deployed (text "dpl_old") false ∷ []
unfolding run_production
moved_baseline = refl

watch_source_recovery_production-IsRecoveryWatch_example :
    IsRecoveryWatch (run true) last_watch attested
watch_source_recovery_production-IsRecoveryWatch_example =
    watch_source_recovery_production-IsRecoveryWatch (run true) last_watch attested
      (λ e. ground (arith, moved_baseline))
