-- ===== src/Production/Revert.antt =====
-- apps/worker/src/source_recovery.rs: `prepare_draft_source_revert`, `verify_source_revert_review` and
-- the attestation that both rest on. A number stands for its decimal text in audit targets.
use Prim.Native.String.{String}
use package.text.Mathlib.Text.{◌==◌ as str_eq}
use nopager.Prelude.{
  ℕ, ◌+◌, Bool, false, not, ◌&&◌, Option, none, some, [], ◌∷◌, Text, text, text_eq, ltb, leb, any,
  is_some, unwrap_or, ◌==◌, if◌then◌else◌, Result, ok, err,
}
use nopager.Core.Incident.{rolled_back, escalated, state_eq}
use nopager.Connectors.Vercel.{ConnectorError, non_blank}
use nopager.Production.Site.{
  Site, Run, GitHub, RevertPullRequestOutcome, PullRequestStatus, Outcome, done, need, load, move,
  write, incident_key, enqueue,
}
use nopager.Store.Schema.{
  Database, AttemptRow, AuditRow, Payload, empty_payload, RevertIdentity, add_audit_event,
}
use nopager.Store.Deployments.{IncidentWork, incident_work}

abbrev pub max_source_revert_review_polls : ℕ
max_source_revert_review_polls = 2016

unfoldable pub identity_eq : RevertIdentity → RevertIdentity → Bool
identity_eq a b =
    a.number == b.number
    && text_eq a.node_id b.node_id
    && text_eq a.head_sha b.head_sha
    && text_eq a.base_sha b.base_sha

abbrev pub same_revert : Option RevertIdentity → RevertIdentity → Bool
same_revert none identity = false
same_revert (some recorded) identity = identity_eq recorded identity

abbrev pub same_incident : Option ℕ → ℕ → Bool
same_incident none id = false
same_incident (some recorded) id = recorded == id

abbrev pub attests : ℕ → RevertIdentity → AuditRow → Bool
attests incident identity row =
    same_incident row.incident_id incident
    && str_eq row.action "github.repair_pr.revert_created"
    && str_eq row.outcome "success"
    && same_revert row.revert identity

unfoldable pub trusted_created_revert_exists : ℕ → RevertIdentity → Database → Bool
trusted_created_revert_exists incident identity db = any (attests incident identity) db.audits

abbrev pub revert_payload : ℕ → RevertIdentity → String → Payload
revert_payload incident identity phase = record empty_payload {
  incident_id = some incident;
  phase = some (text phase);
  revert = some identity;
}

abbrev pub enqueue_review_identity : ℕ → RevertIdentity → ℕ → ℕ → Site → Site
enqueue_review_identity incident identity poll delay =
    enqueue (text "verify")
      (incident_key (text "incident:source-revert-review") (incident ∷ poll ∷ identity.number ∷ []))
      (record (revert_payload incident identity "source-revert-review") { poll = some poll }) 3
      delay

-- `identity_from_payload`, with the filters of `required_string`.
unfoldable pub identity_from_payload : Payload → Option RevertIdentity
identity_from_payload payload = elim payload.revert [
  | none ↦ none
  | some identity ↦
      if leb 1 identity.number
        && is_some (non_blank (some identity.node_id))
        && is_some (non_blank (some identity.head_sha))
        && is_some (non_blank (some identity.base_sha))
      then some identity
      else none
]

abbrev pub audit_revert : IncidentWork → String → String → RevertIdentity → Site → Site
audit_revert work action outcome identity = write (
    add_audit_event work.incident.project_id (some work.incident.id) "worker" action none outcome
      (some identity))

-- The attempt's fields are asked for before GitHub is; the error is only written down.
unfoldable pub open_revert : Option GitHub → AttemptRow → Option RevertPullRequestOutcome
open_revert none attempt = none
open_revert (some github) attempt = elim (non_blank attempt.repair_branch) [
  | none ↦ none
  | some branch ↦ elim (non_blank attempt.repair_commit_sha) [
    | none ↦ none
    | some head ↦ elim (github.open_revert branch head attempt.base_commit_sha) [
      | err _ ↦ none
      | ok outcome ↦ some outcome
    ]
  ]
]

unfoldable pub await_review : IncidentWork → RevertIdentity → String → Site → Outcome
await_review work identity message s =
    move work rolled_back escalated message
      (enqueue_review_identity work.incident.id identity 0 30 s) done

unfoldable pub by_revert : IncidentWork → Option RevertPullRequestOutcome → Site → Outcome
by_revert work (some (RevertPullRequestOutcome.created identity)) s =
    await_review work identity
      "Production recovered by rollback; a draft source-revert PR was created and requires review"
      (audit_revert work "github.repair_pr.revert_created" "success" identity s)
by_revert work (some (RevertPullRequestOutcome.existing_candidate identity)) s =
    if trusted_created_revert_exists work.incident.id identity s.db
    then await_review work identity
        "Production recovered by rollback; the previously created draft source-revert PR was recovered and requires review"
        s
    else move work rolled_back escalated
        "Production recovered by rollback; an existing source-revert candidate requires verification"
        (audit_revert work "github.repair_pr.revert_candidate_found" "needs_review" identity s) done
by_revert work none s =
    move work rolled_back escalated
      "Production recovered by rollback, but source-revert preparation needs human verification"
      (write
        (add_audit_event work.incident.project_id (some work.incident.id) "worker"
          "github.repair_pr.revert_create" none "failure" none)
        s)
      done

unfoldable pub prepare_draft_source_revert :
    Option GitHub → IncidentWork → AttemptRow → Site → Outcome
prepare_draft_source_revert github work attempt = by_revert work (open_revert github attempt)

unfoldable pub audit_source_recovery_failure : IncidentWork → String → Option Text → Site → Outcome
audit_source_recovery_failure work action target s = done (
    write
      (add_audit_event work.incident.project_id (some work.incident.id) "worker" action target
        "failure" none)
      s)

unfoldable pub merge_sha_of : PullRequestStatus → Option Text
merge_sha_of status = if status.is_merged then non_blank status.merge_commit_sha else none

abbrev pub recovery_payload : ℕ → RevertIdentity → Text → Payload
recovery_payload incident identity merge_sha =
    record (revert_payload incident identity "source-recovery-production") {
      revert_merge_sha = some merge_sha;
    }

-- `incident:{id}:source-recovery-production:{poll}:{merge_sha}`
abbrev pub enqueue_source_recovery_production : ℕ → RevertIdentity → Text → ℕ → ℕ → Site → Site
enqueue_source_recovery_production incident identity merge_sha poll delay =
    enqueue (text "verify")
      (incident_key (text "incident:source-recovery-production") (incident ∷ poll ∷ merge_sha))
      (record (recovery_payload incident identity merge_sha) { poll = some poll }) 3 delay

unfoldable pub review_merged : IncidentWork → RevertIdentity → Text → Site → Outcome
review_merged work identity merge_sha s =
    let s1 = audit_revert work "github.repair_pr.revert_merged" "success" identity s in
    done (enqueue_source_recovery_production work.incident.id identity merge_sha 0 0 s1)

unfoldable pub review_status :
    IncidentWork → RevertIdentity → ℕ → Result ConnectorError PullRequestStatus → Site → Outcome
review_status work identity poll (err _) s =
    audit_source_recovery_failure work "github.repair_pr.revert_review" none s
review_status work identity poll (ok status) s =
    if not (identity_eq status.identity identity)
    then audit_source_recovery_failure work "github.repair_pr.revert_review" none s
    else elim (merge_sha_of status) [
      | some merge_sha ↦ review_merged work identity merge_sha s
      | none ↦
          if leb max_source_revert_review_polls poll
          then audit_source_recovery_failure work "github.repair_pr.revert_review" none s
          else done (enqueue_review_identity work.incident.id identity (poll + 1) 300 s)
    ]

unfoldable pub review : Run → IncidentWork → RevertIdentity → ℕ → Site → Outcome
review run work identity poll s =
    if state_eq work.incident.status rolled_back
    then (if ltb poll 3
        then done (enqueue_review_identity work.incident.id identity (poll + 1) 10 s)
        else done s)
    else if not (state_eq work.incident.status escalated)
    then done s
    else if not (trusted_created_revert_exists work.incident.id identity s.db)
    then audit_source_recovery_failure work "github.repair_pr.revert_review" none s
    else need run.github s
        λ github. review_status work identity poll (github.pull_request identity.number) s

unfoldable pub verify_source_revert_review : Run → Payload → Site → Outcome
verify_source_revert_review run payload s = need payload.incident_id s λ incident_id.
    need (identity_from_payload payload) s λ identity.
      load (incident_work incident_id s.db) s
        λ work. review run work identity (unwrap_or payload.poll 0) s
