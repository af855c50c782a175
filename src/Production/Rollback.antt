-- ===== src/Production/Rollback.antt =====
-- apps/worker/src/main.rs: `process_rollback_action`, `verify_rolled_back_production` and
-- `rollback_target_is_controlled`; legacy_pipeline.rs: `begin_rollback`.
pub mod Guards
pub mod Silence
use nopager.Prelude.{
  ℕ, ◌+◌, Bool, true, false, not, ◌&&◌, ◌||◌, Option, none, some, List, [], ◌∷◌, Text, text,
  text_eq, ltb, is_some, unwrap_or, if◌then◌else◌, Result, ok, err,
}
use nopager.Core.Incident.{
  IncidentState, verifying_production, rolling_back, rolled_back, resolved, state_eq,
}
use nopager.Connectors.Vercel.{
  Wire, ProjectTarget, is_text, get_project, current_production_target, rollback,
}
use nopager.Production.Discovery.{
  DiscoveryError, ProductionReadiness, pending, ready, current_live_production_readiness,
}
use nopager.Production.Site.{
  Site, Run, Outcome, ProductionError, done, after, need, load, commit, ask, move, escalate, audit,
  pause, attempt_payload, incident_key, enqueue, enqueue_cleanup,
}
use nopager.Production.Revert.{prepare_draft_source_revert}
use nopager.Store.Schema.{AttemptRow, Payload}
use nopager.Store.Deployments.{
  IncidentWork, incident_work, repair_attempt, latest_known_good_deployment,
}

abbrev pub max_rollback_activation_polls : ℕ
max_rollback_activation_polls = 60

-- The job that `begin_rollback` and `begin_durable_rollback` enqueue.
abbrev pub rollback_payload : ℕ → ℕ → Option Bool → Option Text → Payload
rollback_payload incident attempt merged expected = record (attempt_payload incident attempt) {
  action = some (text "rollback");
  source_repair_merged = merged;
  expected_production_id = expected;
}

abbrev pub start_rollback : ℕ → Payload → Site → Site
start_rollback incident payload =
    enqueue (text "production-action") (incident_key (text "incident:rollback") (incident ∷ []))
      payload 5 0

unfoldable pub begin_rollback : IncidentWork → ℕ → Site → Outcome
begin_rollback work attempt s = elim (latest_known_good_deployment work.incident.project_id s.db) [
  | none ↦ escalate work.incident.id s
  | some _ ↦
      move work verifying_production rolling_back
        "Production verification failed; starting rollback" s
        λ s1.
          done (
            start_rollback work.incident.id (rollback_payload work.incident.id attempt none none)
              s1)
]

unfoldable pub rollback_target_is_controlled :
    Text → Option Text → Text → Option Text → Option Text → Bool → Bool
rollback_target_is_controlled current current_commit known_good expected repair_commit merged =
    text_eq current known_good
    || is_text expected current
    || (not merged && elim repair_commit [ none ↦ false | some sha ↦ is_text current_commit sha ])

-- `payload.get("sourceRepairMerged")….unwrap_or(false)`
abbrev pub source_repair_merged : Payload → Bool
source_repair_merged payload = unwrap_or payload.source_repair_merged false

abbrev pub poll_of : Payload → ℕ
poll_of payload = unwrap_or payload.poll 0

abbrev pub check_rollback : ℕ → ℕ → Bool → Site → Site
check_rollback incident attempt merged =
    enqueue (text "verify") (incident_key (text "incident:verify-rollback") (incident ∷ []))
      (record (attempt_payload incident attempt) {
        phase = some (text "rollback");
        source_repair_merged = some merged;
      })
      5 5

-- From `vercel.rollback(…)` on, for the known-good deployment.
unfoldable pub roll_back : Wire → Text → Text → IncidentWork → ℕ → Payload → Site → Outcome
roll_back wire project_id known_good work attempt payload s =
    let s1 = record s { rollbacks = known_good ∷ s.rollbacks } in
    ask (rollback wire project_id known_good) s1 λ _.
      let s2 = audit work "vercel.production.rollback" known_good "success" s1 in
      move work rolling_back rolled_back
        "Production rolled back to the previous known-good deployment" s2
        λ s3. done (check_rollback work.incident.id attempt (source_repair_merged payload) s3)

unfoldable pub block_rollback : IncidentWork → Text → Site → Outcome
block_rollback work target s =
    escalate work.incident.id (audit work "vercel.production.rollback_blocked" target "failure" s)

-- What the code makes of the current production target.
unfoldable pub roll_back_from :
    Wire → Text → Text → IncidentWork → AttemptRow → Payload → Option ProjectTarget → Site → Outcome
roll_back_from wire project_id known_good work attempt payload none s =
    block_rollback work project_id s
roll_back_from wire project_id known_good work attempt payload (some current) s =
    if not (
      rollback_target_is_controlled current.id current.commit_sha known_good
        payload.expected_production_id attempt.repair_commit_sha (source_repair_merged payload))
    then block_rollback work current.id s
    else roll_back wire project_id known_good work attempt.id payload s

unfoldable pub rollback_action : Run → IncidentWork → ℕ → Payload → Site → Outcome
rollback_action run work attempt_id payload s = need run.vercel_project_id s λ project_id.
    need (latest_known_good_deployment work.incident.project_id s.db) s λ known_good.
      load (repair_attempt attempt_id s.db) s λ attempt. need run.vercel s λ wire.
        ask (get_project wire project_id) s λ project.
          roll_back_from wire project_id known_good.provider_deployment_id work attempt payload
            (current_production_target project) s

unfoldable pub process_rollback_action : Run → Payload → Site → Outcome
process_rollback_action run payload s = need payload.incident_id s λ incident_id.
    need payload.attempt_id s λ attempt_id. load (incident_work incident_id s.db) s λ work.
      if work.project.protection_paused
      then pause work "Protection paused before production mutation" s
      else if not (state_eq work.incident.status rolling_back)
      then done s
      else rollback_action run work attempt_id payload s

-- After the health check.
unfoldable pub rollback_verified : Run → IncidentWork → ℕ → Text → Payload → Site → Outcome
rollback_verified run work attempt_id known_good payload s =
    let s1 = audit work "vercel.production.rollback_verified" known_good "success" s in
    if source_repair_merged payload
    then (load (repair_attempt attempt_id s1.db) s1 λ attempt.
        after (prepare_draft_source_revert run.github work attempt s1)
          λ s2. done (enqueue_cleanup work.incident.id attempt_id s2))
    else move work rolled_back resolved
        "Rollback restored the known-good deployment as current production and health recovered" s1
        λ s2. done (enqueue_cleanup work.incident.id attempt_id s2)

abbrev pub poll_rollback : IncidentWork → ℕ → Payload → Site → Site
poll_rollback work attempt_id payload =
    let next = poll_of payload + 1 in
    enqueue (text "verify")
      (incident_key (text "incident:verify-rollback") (work.incident.id ∷ next ∷ []))
      (record (attempt_payload work.incident.id attempt_id) {
        phase = some (text "rollback");
        poll = some next;
        source_repair_merged = some (source_repair_merged payload);
      })
      5 5

-- `match production::current_live_production_readiness(…)`
unfoldable pub by_readiness :
    Run
    → IncidentWork
    → ℕ
    → Text
    → Payload
    → Result DiscoveryError ProductionReadiness
    → Site
    → Outcome
by_readiness run work attempt_id known_good payload (ok pending) s =
    done (poll_rollback work attempt_id payload s)
by_readiness run work attempt_id known_good payload (err _) s = escalate work.incident.id s
by_readiness run work attempt_id known_good payload (ok ready) s =
    if not run.healthy
    then escalate work.incident.id s
    else rollback_verified run work attempt_id known_good payload s

unfoldable pub rolled_back_action : Run → IncidentWork → ℕ → Payload → Site → Outcome
rolled_back_action run work attempt_id payload s =
    need (latest_known_good_deployment work.incident.project_id s.db) s λ known_good.
      need run.vercel s λ wire.
        if ltb max_rollback_activation_polls (poll_of payload)
        then escalate work.incident.id s
        else by_readiness run work attempt_id known_good.provider_deployment_id payload
            (current_live_production_readiness wire known_good.provider_deployment_id) s

unfoldable pub verify_rolled_back_production : Run → Payload → Site → Outcome
verify_rolled_back_production run payload s = need payload.incident_id s λ incident_id.
    need payload.attempt_id s λ attempt_id. load (incident_work incident_id s.db) s λ work.
      if not (state_eq work.incident.status rolled_back)
      then done s
      else rolled_back_action run work attempt_id payload s
