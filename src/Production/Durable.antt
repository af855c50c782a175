-- ===== src/Production/Durable.antt =====
-- apps/worker/src/main.rs: `persist_verified_repair`, `begin_durable_rollback`,
-- `verify_durable_production` and `watch_durable_production`; production.rs: `land_and_find_production`.
use nopager.Prelude.{
  ℕ, ◌+◌, unwrap_or, true, not, ◌||◌, none, some, [], ◌∷◌, Text, text, ltb, ◌==◌, if◌then◌else◌, ok,
  err,
}
use nopager.Core.Incident.{verifying_production, rolling_back, resolved, state_eq}
use nopager.Connectors.Vercel.{Wire, get_project, non_blank}
use nopager.Connectors.SourceCompatibility.{validate_vercel_github_source}
use nopager.Production.Discovery.{
  ProductionDiscovery, find_current_production_for_commit, verify_current_production,
}
use nopager.Production.Site.{
  Site, Run, GitHub, Outcome, incompatible, timed_out, discovery, done, fail, need, load, commit,
  ask, move, escalate, audit, write, pause, attempt_payload, incident_key, enqueue, enqueue_cleanup,
}
use nopager.Production.Rollback.{rollback_payload, start_rollback, poll_of}
use nopager.Production.Promotion.{production_row, watch_payload, is_verified, enqueue_landing}
use nopager.Store.Schema.{AttemptRow, Payload}
use nopager.Store.Deployments.{
  IncidentWork, incident_work, repair_attempt, latest_known_good_deployment, save_deployment,
  mark_deployment_known_good,
}

abbrev pub max_durable_deployment_polls : ℕ
max_durable_deployment_polls = 60

unfoldable pub ensure_durable_source_compatible :
    Run → Wire → Text → Site → (Site → Outcome) → Outcome
ensure_durable_source_compatible run wire project_id s k =
    need (non_blank run.base_branch) s λ branch. ask (get_project wire project_id) s λ project.
      elim (validate_vercel_github_source project (record {
        owner = run.owner;
        repo = run.repo;
        repo_id = run.repo_id;
        default_branch = branch;
      })) [ err e ↦ fail (incompatible e) s | ok _ ↦ k s ]

-- The commit that the pull request was merged as, and what is found of it in production.
unfoldable pub land_and_find_production :
    Run
    → GitHub
    → Wire
    → Text
    → AttemptRow
    → Site
    → (Text → ProductionDiscovery → Site → Outcome)
    → Outcome
land_and_find_production run github wire project_id attempt s k =
    ensure_durable_source_compatible run wire project_id s λ s1.
      need attempt.repair_branch s1 λ branch. need attempt.repair_commit_sha s1 λ head.
        (let s2 = record s1 { landings = attempt.id ∷ s1.landings } in
          ask (github.land_repair_pr branch head attempt.base_commit_sha) s2 λ merge_sha.
            elim (find_current_production_for_commit wire project_id merge_sha) [
              | err e ↦ fail (discovery e) s2
              | ok found ↦ k merge_sha found s2
            ])

abbrev pub audit_landing : IncidentWork → AttemptRow → ℕ → Site → Site
audit_landing work attempt poll s =
    let branch = unwrap_or attempt.repair_branch (text "repair") in
    if poll == 0 then audit work "github.repair_pr.land" branch "success" s else s

abbrev pub check_durable_deployment : ℕ → ℕ → Text → Text → Site → Site
check_durable_deployment incident attempt id commit_sha =
    enqueue (text "verify")
      (incident_key (text "incident:verify-durable-production") (incident ∷ []))
      (record (attempt_payload incident attempt) {
        phase = some (text "durable-production");
        production_deployment_id = some id;
        production_commit_sha = some commit_sha;
      })
      5 5

-- `match production::land_and_find_production(…)`
unfoldable pub landed : IncidentWork → AttemptRow → ℕ → Text → ProductionDiscovery → Site → Outcome
landed work attempt poll merge_sha ProductionDiscovery.pending s =
    done (
      enqueue_landing work.incident.id attempt.id (poll + 1) 10 (audit_landing work attempt poll s))
landed work attempt poll merge_sha (ProductionDiscovery.ready d) s =
    let s1 = audit_landing work attempt poll s in
    let s2 = write (save_deployment (production_row work d (text "READY"))) s1 in
    let s3 = audit work "vercel.production.current" d.id "success" s2 in
    done (check_durable_deployment work.incident.id attempt.id d.id d.commit_sha s3)

unfoldable pub land_repair : Run → IncidentWork → ℕ → ℕ → Site → Outcome
land_repair run work attempt_id poll s = load (repair_attempt attempt_id s.db) s λ attempt.
    need run.vercel_project_id s λ project_id. need run.github s λ github. need run.vercel s λ wire.
      land_and_find_production run github wire project_id attempt s (landed work attempt poll)

unfoldable pub persist_verified_repair : Run → Payload → Site → Outcome
persist_verified_repair run payload s = need payload.incident_id s λ incident_id.
    need payload.attempt_id s λ attempt_id. load (incident_work incident_id s.db) s λ work.
      if work.project.protection_paused
      then pause work "Protection paused before persisting the verified production repair" s
      else if not (state_eq work.incident.status verifying_production)
      then done s
      else if ltb max_durable_deployment_polls (poll_of payload)
      then fail timed_out s
      else land_repair run work attempt_id (poll_of payload) s

unfoldable pub begin_durable_rollback : IncidentWork → ℕ → Text → Site → Outcome
begin_durable_rollback work attempt expected s =
    elim (latest_known_good_deployment work.incident.project_id s.db) [
      | none ↦ escalate work.incident.id s
      | some _ ↦
          move work verifying_production rolling_back
            "Durable production verification failed; restoring traffic before source remediation" s
            λ s1. done (
              start_rollback work.incident.id
                (rollback_payload work.incident.id attempt (some true) (some expected)) s1)
    ]

abbrev pub enqueue_durable_watch : ℕ → ℕ → ℕ → Text → Text → Site → Site
enqueue_durable_watch incident attempt check id commit_sha =
    enqueue (text "post-deploy-watch")
      (incident_key (text "incident:durable-watch") (incident ∷ check ∷ []))
      (watch_payload incident attempt check (text "durable-production") id commit_sha) 3 10

-- The three watch checks have passed.
unfoldable pub durable : IncidentWork → ℕ → Text → Site → Outcome
durable work attempt id s =
    commit (mark_deployment_known_good work.incident.project_id id s.db) s λ s1.
      move work verifying_production resolved
        "Production repair stayed healthy and was durably merged into the source branch"
        (audit work "vercel.production.durable_verified" id "success" s1)
        λ s2. done (enqueue_cleanup work.incident.id attempt s2)

unfoldable pub durable_watched : IncidentWork → ℕ → ℕ → Text → Text → Site → Outcome
durable_watched work attempt check id commit_sha s =
    if ltb check 2
    then done (enqueue_durable_watch work.incident.id attempt (check + 1) id commit_sha s)
    else durable work attempt id s

-- The part that both jobs share: is the deployment still current and the site healthy?
unfoldable pub check_durable :
    Run → Payload → Site → (IncidentWork → ℕ → Text → Text → Site → Outcome) → Outcome
check_durable run payload s k = need payload.incident_id s λ incident_id.
    need payload.attempt_id s λ attempt_id. need payload.production_deployment_id s λ id.
      need payload.production_commit_sha s λ commit_sha.
        load (incident_work incident_id s.db) s λ work.
          if not (state_eq work.incident.status verifying_production)
          then done s
          else need run.vercel s λ wire.
            if not (is_verified (verify_current_production wire id commit_sha)) || not run.healthy
            then begin_durable_rollback work attempt_id id s
            else k work attempt_id id commit_sha s

unfoldable pub start_durable_watch : IncidentWork → ℕ → Text → Text → Site → Outcome
start_durable_watch work attempt id commit_sha s =
    done (enqueue_durable_watch work.incident.id attempt 0 id commit_sha s)

unfoldable pub verify_durable_production : Run → Payload → Site → Outcome
verify_durable_production run payload s = check_durable run payload s start_durable_watch

unfoldable pub watch_durable_production : Run → Payload → Site → Outcome
watch_durable_production run payload s = need payload.check s λ check.
    check_durable run payload s
      (λ work attempt id commit_sha s1. durable_watched work attempt check id commit_sha s1)
