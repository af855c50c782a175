-- ===== src/Production/Recovery.antt =====
-- apps/worker/src/source_recovery.rs: the production of a merged source revert, and the end of an
-- escalated incident that it brings.
use nopager.Prelude.{
  ℕ, ◌+◌, Bool, false, not, ◌&&◌, ◌||◌, none, some, ◌∷◌, Text, text, text_eq, ltb, ◌==◌,
  if◌then◌else◌, Result, ok, err,
}
use nopager.Core.Incident.{escalated, resolved, state_eq}
use nopager.Connectors.Vercel.{ConnectorError, Wire, get_project, current_id, is_text, non_blank}
use nopager.Production.Discovery.{
  DiscoveryError, ProductionDeployment, ProductionDiscovery, find_current_production_for_commit,
  verify_current_production,
}
use nopager.Production.Site.{
  Site, Run, Outcome, untrusted, done, fail, need, load, commit, ask, write, incident_key, enqueue,
}
use nopager.Production.Rollback.{poll_of}
use nopager.Production.Revert.{
  identity_from_payload, trusted_created_revert_exists, audit_source_recovery_failure,
  enqueue_source_recovery_production, recovery_payload,
}
use nopager.Production.Promotion.{production_row, is_verified}
use nopager.Store.Schema.{
  Database, Payload, IncidentRow, RevertIdentity, find_row, update_rows, add_event, add_audit_event,
}
use nopager.Store.Deployments.{
  IncidentWork, incident_work, save_deployment, mark_deployment_known_good,
}

abbrev pub max_source_recovery_deployment_polls : ℕ
max_source_recovery_deployment_polls = 60

unfoldable pub authoritative_current_target_matches :
    Wire → Text → Text → Result ConnectorError Bool
authoritative_current_target_matches wire project_id id = elim (get_project wire project_id) [
  | err e ↦ err e
  | ok project ↦ ok (is_text (current_id project) id)
]

-- `incident:{id}:source-recovery-watch:{check}:{deployment_id}`
abbrev pub enqueue_recovery_watch : ℕ → RevertIdentity → Text → Text → ℕ → Site → Site
enqueue_recovery_watch incident identity merge_sha id check =
    enqueue (text "post-deploy-watch")
      (incident_key (text "incident:source-recovery-watch") (incident ∷ check ∷ id))
      (record (recovery_payload incident identity merge_sha) {
        check = some check;
        production_deployment_id = some id;
        production_commit_sha = some merge_sha;
      })
      3 10

unfoldable pub recovered_production :
    Run
    → Wire
    → Text
    → IncidentWork
    → RevertIdentity
    → Text
    → ℕ
    → ProductionDeployment
    → Site
    → Outcome
recovered_production run wire project_id work identity merge_sha poll d s =
    ask (authoritative_current_target_matches wire project_id d.id) s λ matches.
      if not matches
      then done
          (enqueue_source_recovery_production work.incident.id identity merge_sha (poll + 1) 10 s)
      else (let row = production_row work (record d { commit_sha = merge_sha }) (text "READY") in
          let s1 = write (save_deployment row) s in
          if not run.healthy
          then audit_source_recovery_failure work "vercel.source_recovery.production_health"
              (some d.id) s1
          else done (enqueue_recovery_watch work.incident.id identity merge_sha d.id 0 s1))

unfoldable pub by_recovery :
    Run
    → Wire
    → Text
    → IncidentWork
    → RevertIdentity
    → Text
    → ℕ
    → Result DiscoveryError ProductionDiscovery
    → Site
    → Outcome
by_recovery run wire project_id work identity merge_sha poll (ok ProductionDiscovery.pending) s =
    done (enqueue_source_recovery_production work.incident.id identity merge_sha (poll + 1) 10 s)
by_recovery run wire project_id work identity merge_sha poll (ok (ProductionDiscovery.ready d)) s =
    recovered_production run wire project_id work identity merge_sha poll d s
by_recovery run wire project_id work identity merge_sha poll (err _) s =
    audit_source_recovery_failure work "vercel.source_recovery.production" (some merge_sha) s

unfoldable pub recovery_production : Run → IncidentWork → RevertIdentity → Text → ℕ → Site → Outcome
recovery_production run work identity merge_sha poll s =
    if not (state_eq work.incident.status escalated)
      || not (trusted_created_revert_exists work.incident.id identity s.db)
    then done s
    else if ltb max_source_recovery_deployment_polls poll
    then audit_source_recovery_failure work "vercel.source_recovery.production" (some merge_sha) s
    else need run.vercel_project_id s λ project_id. need run.vercel s λ wire.
      by_recovery run wire project_id work identity merge_sha poll
        (find_current_production_for_commit wire project_id merge_sha) s

unfoldable pub verify_source_recovery_production : Run → Payload → Site → Outcome
verify_source_recovery_production run payload s = need payload.incident_id s λ incident_id.
    need (identity_from_payload payload) s λ identity.
      need (non_blank payload.revert_merge_sha) s λ merge_sha.
        load (incident_work incident_id s.db) s
          λ work. recovery_production run work identity merge_sha (poll_of payload) s

-- `verify_protected_branch_head`
unfoldable pub is_protected_branch_head : Run → Text → Bool
is_protected_branch_head run merge_sha = elim (non_blank run.base_branch) [
  | none ↦ false
  | some branch ↦ elim run.github [
    | none ↦ false
    | some github ↦ elim (github.branch_head branch) [
      | err _ ↦ false
      | ok head ↦ text_eq head merge_sha
    ]
  ]
]

-- `WHERE id = $1 AND project_id = $2 AND status = 'ESCALATED'`
abbrev pub is_escalated : IncidentWork → IncidentRow → Bool
is_escalated work i =
    i.id == work.incident.id
    && (i.project_id == work.incident.project_id && state_eq i.status escalated)

unfoldable pub resolve_row : IncidentWork → Text → Database → Database
resolve_row work id db =
    add_audit_event work.incident.project_id (some work.incident.id) "worker"
      "source_recovery.verified" (some id) "success" none
      (add_event work.incident.id "worker"
        "Reviewed source revert is current in Production and remained healthy; source and runtime are aligned again"
        (record db {
          incidents =
              update_rows (is_escalated work)
                (λ i. record i {
                  status = resolved;
                  resolved_at = some db.clock;
                  autonomous_resolution = false;
                })
                db.incidents;
        }))

unfoldable pub resolve_escalated_source_recovery :
    IncidentWork → RevertIdentity → Text → Site → Outcome
resolve_escalated_source_recovery work identity id s =
    elim (find_row (is_escalated work) s.db.incidents) [
      | none ↦ done s
      | some _ ↦
          if not (trusted_created_revert_exists work.incident.id identity s.db)
          then fail untrusted s
          else done (write (resolve_row work id) s)
    ]

-- The three checks of a watch: current, authoritative and healthy.
unfoldable pub is_recovered : Run → Wire → Text → Text → Text → Bool
is_recovered run wire project_id id merge_sha =
    is_verified (verify_current_production wire id merge_sha)
    && (elim (authoritative_current_target_matches wire project_id id) [
      | err _ ↦ false
      | ok matches ↦ matches
    ]
        && run.healthy)

unfoldable pub recovery_watched :
    Run → IncidentWork → RevertIdentity → Text → Text → ℕ → Site → Outcome
recovery_watched run work identity merge_sha id check s =
    if ltb check 2
    then done (enqueue_recovery_watch work.incident.id identity merge_sha id (check + 1) s)
    else if not (is_protected_branch_head run merge_sha)
    then audit_source_recovery_failure work "github.source_recovery.protected_branch"
        (some merge_sha) s
    else commit (mark_deployment_known_good work.incident.project_id id s.db) s
        λ s1. resolve_escalated_source_recovery work identity id s1

unfoldable pub recovery_watch :
    Run → IncidentWork → RevertIdentity → Text → Text → ℕ → Site → Outcome
recovery_watch run work identity merge_sha id check s =
    if not (state_eq work.incident.status escalated)
      || not (trusted_created_revert_exists work.incident.id identity s.db)
    then done s
    else need run.vercel_project_id s λ project_id. need run.vercel s λ wire.
      if not (is_recovered run wire project_id id merge_sha)
      then audit_source_recovery_failure work "vercel.source_recovery.production_watch" (some id) s
      else recovery_watched run work identity merge_sha id check s

unfoldable pub watch_source_recovery_production : Run → Payload → Site → Outcome
watch_source_recovery_production run payload s = need payload.incident_id s λ incident_id.
    need payload.check s λ check. need (identity_from_payload payload) s λ identity.
      need (non_blank payload.revert_merge_sha) s λ merge_sha.
        need (non_blank payload.production_deployment_id) s λ id.
          load (incident_work incident_id s.db) s
            λ work. recovery_watch run work identity merge_sha id check s
