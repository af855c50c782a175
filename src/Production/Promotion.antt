-- ===== src/Production/Promotion.antt =====
-- apps/worker/src/main.rs: `verify_promoted_production` and `watch_promoted_production`;
-- legacy_pipeline.rs: `process_production_action`, whose action "rollback" main.rs handles itself.
use nopager.Prelude.{
  ℕ, ◌+◌, ◌||◌, unwrap_or, Bool, true, false, not, some, [], ◌∷◌, Text, text, text_eq, ltb,
  if◌then◌else◌, Result, ok, err,
}
use nopager.Core.Incident.{production_deploying, verifying_production, state_eq}
use nopager.Connectors.Vercel.{Wire, is_text, get_deployment, promote}
use nopager.Production.Discovery.{
  ProductionDeployment, ProductionDiscovery, DiscoveryError, find_current_production_for_commit,
  verify_current_production,
}
use nopager.Production.Site.{
  Site, Run, Outcome, unsupported_action, done, fail, need, load, ask, move, audit, write, pause,
  attempt_payload, incident_key, enqueue,
}
use nopager.Production.Rollback.{begin_rollback, poll_of}
use nopager.Store.Schema.{AttemptRow, Payload, DeploymentRow}
use nopager.Store.Deployments.{IncidentWork, incident_work, repair_attempt, save_deployment}

abbrev pub max_promotion_activation_polls : ℕ
max_promotion_activation_polls = 60

abbrev pub production_row : IncidentWork → ProductionDeployment → Text → DeploymentRow
production_row work d status = record {
  project_id = work.incident.project_id;
  provider_deployment_id = d.id;
  environment = text "production";
  commit_sha = d.commit_sha;
  url = d.url;
  status = status;
  known_good = false;
}

abbrev pub check_promotion : ℕ → ℕ → Site → Site
check_promotion incident attempt =
    enqueue (text "verify") (incident_key (text "incident:verify-production") (incident ∷ []))
      (record (attempt_payload incident attempt) { phase = some (text "production") }) 5 5

-- What the action "promote" does after Vercel has been asked.
unfoldable pub promoted : Run → IncidentWork → AttemptRow → Text → Site → Outcome
promoted run work attempt id s =
    let commit_sha = unwrap_or attempt.repair_commit_sha (text "unknown") in
    let row =
      production_row work (record { id = id; commit_sha = commit_sha; url = run.production_url })
        (text "PROMOTED") in
    let s1 = audit work "vercel.production.promote" id "success" (write (save_deployment row) s) in
    move work production_deploying verifying_production
      "Repair promoted; verifying production health" s1
      λ s2. done (check_promotion work.incident.id attempt.id s2)

unfoldable pub promote_action : Run → Wire → Text → IncidentWork → AttemptRow → Site → Outcome
promote_action run wire project_id work attempt s =
    if not (state_eq work.incident.status production_deploying)
    then done s
    else need attempt.preview_deployment_id s λ id. ask (get_deployment wire 0 id) s λ current.
      if is_text current.target (text "production")
      then promoted run work attempt id s
      else (let s1 = record s { promotions = id ∷ s.promotions } in
          ask (promote wire project_id id) s1 λ _. promoted run work attempt id s1)

unfoldable pub process_production_action : Run → Payload → Site → Outcome
process_production_action run payload s = need payload.incident_id s λ incident_id.
    need payload.attempt_id s λ attempt_id. need payload.action s λ action.
      load (incident_work incident_id s.db) s λ work.
        if work.project.protection_paused
        then pause work "Protection paused before production mutation" s
        else load (repair_attempt attempt_id s.db) s λ attempt.
          need run.vercel_project_id s λ project_id. need run.vercel s λ wire.
            if text_eq action (text "promote")
            then promote_action run wire project_id work attempt s
            else fail unsupported_action s

abbrev pub watch_payload : ℕ → ℕ → ℕ → Text → Text → Text → Payload
watch_payload incident attempt check phase id commit_sha =
    record (attempt_payload incident attempt) {
      check = some check;
      phase = some phase;
      production_deployment_id = some id;
      production_commit_sha = some commit_sha;
    }

abbrev pub enqueue_watch : ℕ → ℕ → ℕ → Text → Text → Site → Site
enqueue_watch incident attempt check id commit_sha =
    enqueue (text "post-deploy-watch")
      (incident_key (text "incident:watch") (incident ∷ check ∷ []))
      (watch_payload incident attempt check (text "promoted-production") id commit_sha) 3 10

abbrev pub poll_promotion : IncidentWork → ℕ → ℕ → Site → Site
poll_promotion work attempt poll =
    enqueue (text "verify")
      (incident_key (text "incident:verify-production") (work.incident.id ∷ poll ∷ []))
      (record (attempt_payload work.incident.id attempt) {
        phase = some (text "production");
        poll = some poll;
      })
      3 5

-- `match production::find_promoted_production(…)`
unfoldable pub by_discovery :
    Run → IncidentWork → ℕ → ℕ → Result DiscoveryError ProductionDiscovery → Site → Outcome
by_discovery run work attempt poll (ok ProductionDiscovery.pending) s =
    done (poll_promotion work attempt (poll + 1) s)
by_discovery run work attempt poll (err _) s = begin_rollback work attempt s
by_discovery run work attempt poll (ok (ProductionDiscovery.ready d)) s =
    let s1 = write (save_deployment (production_row work d (text "READY"))) s in
    if not run.healthy
    then begin_rollback work attempt s1
    else done (enqueue_watch work.incident.id attempt 0 d.id d.commit_sha s1)

unfoldable pub promoted_production : Run → IncidentWork → ℕ → ℕ → Site → Outcome
promoted_production run work attempt_id poll s = load (repair_attempt attempt_id s.db) s λ attempt.
    need attempt.repair_commit_sha s λ commit_sha. need run.vercel_project_id s λ project_id.
      need run.vercel s λ wire.
        if ltb max_promotion_activation_polls poll
        then begin_rollback work attempt_id s
        else by_discovery run work attempt_id poll
            (find_current_production_for_commit wire project_id commit_sha) s

unfoldable pub verify_promoted_production : Run → Payload → Site → Outcome
verify_promoted_production run payload s = need payload.incident_id s λ incident_id.
    need payload.attempt_id s λ attempt_id. load (incident_work incident_id s.db) s λ work.
      if not (state_eq work.incident.status verifying_production)
      then done s
      else promoted_production run work attempt_id (poll_of payload) s

abbrev pub is_verified : Result DiscoveryError (Unit {0}) → Bool
is_verified (err _) = false
is_verified (ok _) = true

abbrev pub enqueue_landing : ℕ → ℕ → (poll delay : ℕ) → Site → Site
enqueue_landing incident attempt poll delay =
    enqueue (text "production-action")
      (incident_key (text "incident:land-repair") (incident ∷ poll ∷ []))
      (record (attempt_payload incident attempt) {
        action = some (text "land-repair");
        poll = some poll;
      })
      3 delay

unfoldable pub watched : IncidentWork → ℕ → ℕ → Text → Text → Site → Outcome
watched work attempt check id commit_sha s =
    if ltb check 2
    then done (enqueue_watch work.incident.id attempt (check + 1) id commit_sha s)
    else done (
        enqueue_landing work.incident.id attempt 0 0
          (audit work "vercel.production.promoted_verified" id "success" s))

unfoldable pub watch_promoted_production : Run → Payload → Site → Outcome
watch_promoted_production run payload s = need payload.incident_id s λ incident_id.
    need payload.attempt_id s λ attempt_id. need payload.check s λ check.
      need payload.production_deployment_id s λ id.
        need payload.production_commit_sha s λ commit_sha.
          load (incident_work incident_id s.db) s λ work.
            if not (state_eq work.incident.status verifying_production)
            then done s
            else need run.vercel s λ wire.
              if not (is_verified (verify_current_production wire id commit_sha)) || not run.healthy
              then begin_rollback work attempt_id s
              else watched work attempt_id check id commit_sha s
