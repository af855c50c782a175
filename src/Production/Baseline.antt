-- ===== src/Production/Baseline.antt =====
-- When the deployment that rollbacks restore moves on: apps/worker/src/main.rs and source_recovery.rs.
use package.text.Mathlib.TextEquality.{eq_iff}
use nopager.Prelude.{
  ℕ, ◌≤◌, true, ◌≡◌, ◌≢◌, arith, Option, none, some, List, Any, any_sound, Text, eq_of_text_eq, ap,
  ◌∙◌, Option-cases, Result-cases, inl, inr, ok,
}
use nopager.Core.Incident.{verifying_production, escalated, state_eq_iff}
use nopager.Connectors.Vercel.{Wire, ProjectDetails, ProjectTarget, get_project, non_blank}
use nopager.Connectors.Vercel.Laws.{IsLive, current_id-IsLive}
use nopager.Production.Discovery.{verify_current_production}
use nopager.Production.Discovery.Laws.{IsReady, verify_current_production-IsReady}
use nopager.Production.Site.{Site, Run, GitHub}
use nopager.Production.Durable.{
  begin_durable_rollback, durable_watched, check_durable, watch_durable_production,
}
use nopager.Production.Revert.{
  attests, same_revert, same_incident, identity_eq, identity_from_payload,
  trusted_created_revert_exists, audit_source_recovery_failure,
}
use nopager.Production.Recovery.{
  recovery_watched, recovery_watch, watch_source_recovery_production, is_recovered,
  is_protected_branch_head, authoritative_current_target_matches,
}
use nopager.Store.Schema.{Database, Payload, JobKey, RevertIdentity, AuditRow, insert_job}
use nopager.Store.Incidents.{IncidentTransition, transition_incident, escalate_incident}
use nopager.Store.Deployments.{IncidentWork, incident_work}

transition_incident-deployments :
    (t : IncidentTransition) (db : Database) {db' : Database}
    → transition_incident t db ≡ ok db'
    → db'.deployments ≡ db.deployments
unfolding transition_incident
transition_incident-deployments t db h = ground arith

escalate_incident-deployments :
    (id : ℕ) (db : Database) {db' : Database}
    → escalate_incident id db ≡ ok db'
    → db'.deployments ≡ db.deployments
unfolding escalate_incident
escalate_incident-deployments id db h = grind (arith, transition_incident-deployments)

insert_job-deployments :
    (type : Text) (key : JobKey) (p : Payload) (m delay : ℕ) (db : Database)
    → (insert_job type key p m delay db).deployments ≡ db.deployments
unfolding insert_job
insert_job-deployments type key p m delay db = ground arith

module _ (work : IncidentWork) where
  begin_durable_rollback-deployments :
      (attempt : ℕ) (id : Text) (s : Site)
      → (begin_durable_rollback work attempt id s).1.db.deployments ≡ s.db.deployments
  unfolding begin_durable_rollback
  begin_durable_rollback-deployments attempt id s = grind (
    arith, transition_incident-deployments, escalate_incident-deployments, insert_job-deployments,
  )

  durable_watched-marks :
      (attempt check : ℕ) (id sha : Text) (s : Site)
      → (durable_watched work attempt check id sha s).1.db.deployments ≢ s.db.deployments
      → 2 ≤ check
  unfolding durable_watched
  durable_watched-marks attempt check id sha s h = grind (arith, insert_job-deployments)

  recovery_watched-marks :
      (run : Run) (identity : RevertIdentity) (sha id : Text) (check : ℕ) (s : Site)
      → (recovery_watched run work identity sha id check s).1.db.deployments ≢ s.db.deployments
      → (2 ≤ check) × (is_protected_branch_head run sha ≡ true)
  unfolding recovery_watched audit_source_recovery_failure
  recovery_watched-marks run identity sha id check s h = grind (arith, insert_job-deployments)

-- What a durable watch has found when it changes the deployments.
pub record IsDurable (run : Run) (payload : Payload) (s : Site) : Type 0 where
  pub incident : ℕ
  pub check : ℕ
  pub id : Text
  pub commit_sha : Text
  pub work : IncidentWork
  pub wire : Wire
  pub has_incident : payload.incident_id ≡ some incident
  pub has_check : payload.check ≡ some check
  pub has_id : payload.production_deployment_id ≡ some id
  pub has_commit : payload.production_commit_sha ≡ some commit_sha
  pub has_work : incident_work incident s.db ≡ ok work
  pub has_client : run.vercel ≡ some wire
  pub is_verifying : work.incident.status ≡ verifying_production
  pub is_current : IsReady wire id commit_sha
  pub is_healthy : run.healthy ≡ true
  pub is_last : 2 ≤ check

-- A durable watch moves the rollback baseline only in the third check or later, for an incident that is
-- verifying production, when the site is healthy and the deployment of the job, asked for by its id,
-- is of the job's commit and ready in production.
pub watch_durable_production-IsDurable :
    (run : Run) (payload : Payload) (s : Site)
    → (watch_durable_production run payload s).1.db.deployments ≢ s.db.deployments
    → IsDurable run payload s
unfolding watch_durable_production check_durable
watch_durable_production-IsDurable run payload s h = elim (Option-cases payload.check) [
  | inl e ↦ absurd (ground arith)
  | inr (check, e) ↦ elim (Option-cases payload.incident_id) [
    | inl e1 ↦ absurd (ground arith)
    | inr (incident, e1) ↦ elim (Option-cases payload.attempt_id) [
      | inl e2 ↦ absurd (ground arith)
      | inr (attempt, e2) ↦ elim (Option-cases payload.production_deployment_id) [
        | inl e3 ↦ absurd (ground arith)
        | inr (id, e3) ↦ elim (Option-cases payload.production_commit_sha) [
          | inl e4 ↦ absurd (ground arith)
          | inr (commit_sha, e4) ↦ elim (Result-cases (incident_work incident s.db)) [
            | inl (_, e5) ↦ absurd (ground arith)
            | inr (work, e5) ↦ elim (Option-cases run.vercel) [
              | inl e6 ↦ absurd (ground arith)
              | inr (wire, e6) ↦ record {
                incident = incident;
                check = check;
                id = id;
                commit_sha = commit_sha;
                work = work;
                wire = wire;
                has_incident = e1;
                has_check = e;
                has_id = e3;
                has_commit = e4;
                has_work = e5;
                has_client = e6;
                is_verifying = grind (arith, state_eq_iff);
                is_current =
                    verify_current_production-IsReady wire id commit_sha
                      (grind (arith, begin_durable_rollback-deployments));
                is_healthy = grind (arith, begin_durable_rollback-deployments);
                is_last = grind (arith, begin_durable_rollback-deployments, durable_watched-marks);
              }
            ]
          ]
        ]
      ]
    ]
  ]
]

-- The worker has recorded that it created the revert pull request.
abbrev pub IsAttested : ℕ → RevertIdentity → List AuditRow → Type 0
IsAttested incident identity audits =
    Any
      (λ row.
        (row.incident_id ≡ some incident)
        × (row.action ≡ "github.repair_pr.revert_created")
        × (row.outcome ≡ "success")
        × (row.revert ≡ some identity))
      audits

-- The project names the deployment as its production.
pub record IsAuthoritative (wire : Wire) (project_id id : Text) : Type 0 where
  pub project : ProjectDetails
  pub target : ProjectTarget
  pub asked : get_project wire project_id ≡ ok project
  pub is_live : IsLive project target
  pub same_id : target.id ≡ id

-- The commit is the head of the protected branch.
pub record IsHead (run : Run) (sha : Text) : Type 0 where
  pub branch : Text
  pub github : GitHub
  pub has_branch : run.base_branch ≡ some branch
  pub has_client : run.github ≡ some github
  pub is_head : github.branch_head branch ≡ ok sha

recovery_checks :
    (run : Run) (wire : Wire) (project_id id sha : Text)
    → is_recovered run wire project_id id sha ≡ true
    → (verify_current_production wire id sha ≡ ok tt)
      × (authoritative_current_target_matches wire project_id id ≡ ok true)
      × (run.healthy ≡ true)
unfolding is_recovered
recovery_checks run wire project_id id sha h =
    elim (Result-cases (verify_current_production wire id sha)) [
      | inl (_, e) ↦ absurd (ground arith)
      | inr (tt, e) ↦
          elim (Result-cases (authoritative_current_target_matches wire project_id id)) [
            | inl (_, e1) ↦ absurd (ground arith)
            | inr (matches, e1) ↦ (ground arith, ground arith, ground arith)
          ]
    ]

target-IsAuthoritative :
    (wire : Wire) (project_id id : Text)
    → authoritative_current_target_matches wire project_id id ≡ ok true
    → IsAuthoritative wire project_id id
unfolding authoritative_current_target_matches
target-IsAuthoritative wire project_id id h = elim (Result-cases (get_project wire project_id)) [
  | inl (_, e) ↦ absurd (ground arith)
  | inr (project, e) ↦
      let (target, live, same) = current_id-IsLive project id (ground arith) in
      record { project = project; target = target; asked = e; is_live = live; same_id = same }
]

non_blank-some : (v : Option Text) (value : Text) → non_blank v ≡ some value → v ≡ some value
unfolding non_blank
non_blank-some none value h = absurd (ground arith)
non_blank-some (some v) value h = ground arith

branch-IsHead : (run : Run) (sha : Text) → is_protected_branch_head run sha ≡ true → IsHead run sha
unfolding is_protected_branch_head
branch-IsHead run sha h = elim (Option-cases (non_blank run.base_branch)) [
  | inl e ↦ absurd (ground arith)
  | inr (branch, e) ↦ elim (Option-cases run.github) [
    | inl e1 ↦ absurd (ground arith)
    | inr (github, e1) ↦ elim (Result-cases (github.branch_head branch)) [
      | inl (_, e2) ↦ absurd (ground arith)
      | inr (head, e2) ↦ record {
        branch = branch;
        github = github;
        has_branch = non_blank-some run.base_branch branch e;
        has_client = e1;
        is_head = e2 ∙ ap ok (eq_of_text_eq head sha (ground arith));
      }
    ]
  ]
]

identity_eq_sound : (a b : RevertIdentity) → identity_eq a b ≡ true → a ≡ b
unfolding identity_eq
identity_eq_sound a b h =
    let node = eq_of_text_eq a.node_id b.node_id (ground arith) in
    let head = eq_of_text_eq a.head_sha b.head_sha (ground arith) in
    let base = eq_of_text_eq a.base_sha b.base_sha (ground arith) in ground arith

same_revert-some :
    (recorded : Option RevertIdentity) (identity : RevertIdentity)
    → same_revert recorded identity ≡ true
    → recorded ≡ some identity
same_revert-some none identity h = absurd (ground arith)
same_revert-some (some r) identity h = ap some (identity_eq_sound r identity h)

same_incident-some :
    (recorded : Option ℕ) (id : ℕ) → same_incident recorded id ≡ true → recorded ≡ some id
same_incident-some none id h = absurd (ground arith)
same_incident-some (some r) id h = ground arith

attests-row :
    (incident : ℕ) (identity : RevertIdentity) (row : AuditRow)
    → attests incident identity row ≡ true
    → (row.incident_id ≡ some incident)
      × (row.action ≡ "github.repair_pr.revert_created")
      × (row.outcome ≡ "success")
      × (row.revert ≡ some identity)
attests-row incident identity row h = (
  same_incident-some row.incident_id incident (ground arith),
  (eq_iff row.action "github.repair_pr.revert_created").0 (ground arith),
  (eq_iff row.outcome "success").0 (ground arith),
  same_revert-some row.revert identity (ground arith),
)

audits-IsAttested :
    (incident : ℕ) (identity : RevertIdentity) (db : Database)
    → trusted_created_revert_exists incident identity db ≡ true
    → IsAttested incident identity db.audits
unfolding trusted_created_revert_exists
audits-IsAttested incident identity db h =
    any_sound (attests incident identity) _ (attests-row incident identity) db.audits h

-- What a watch of a source recovery has found when it changes the deployments.
pub record IsRecovered (run : Run) (work : IncidentWork) (identity : RevertIdentity) (sha id : Text)
    (check : ℕ) (s : Site) : Type 0 where
  pub project_id : Text
  pub wire : Wire
  pub has_project : run.vercel_project_id ≡ some project_id
  pub has_client : run.vercel ≡ some wire
  pub is_escalated : work.incident.status ≡ escalated
  pub attestation : IsAttested work.incident.id identity s.db.audits
  pub is_current : IsReady wire id sha
  pub is_authoritative : IsAuthoritative wire project_id id
  pub is_healthy : run.healthy ≡ true
  pub is_head : IsHead run sha
  pub is_last : 2 ≤ check

recovery_watch-IsRecovered :
    (run : Run) (work : IncidentWork) (identity : RevertIdentity) (sha id : Text) (check : ℕ)
    (s : Site)
    → (recovery_watch run work identity sha id check s).1.db.deployments ≢ s.db.deployments
    → IsRecovered run work identity sha id check s
unfolding recovery_watch audit_source_recovery_failure
recovery_watch-IsRecovered run work identity sha id check s h =
    elim (Option-cases run.vercel_project_id) [
      | inl e ↦ absurd (ground arith)
      | inr (project_id, e) ↦ elim (Option-cases run.vercel) [
        | inl e1 ↦ absurd (ground arith)
        | inr (wire, e1) ↦
            let checks = recovery_checks run wire project_id id sha (grind arith) in
            record {
              project_id = project_id;
              wire = wire;
              has_project = e;
              has_client = e1;
              is_escalated = grind (arith, state_eq_iff);
              attestation = audits-IsAttested work.incident.id identity s.db (grind arith);
              is_current = verify_current_production-IsReady wire id sha (grind (arith, checks));
              is_authoritative = target-IsAuthoritative wire project_id id (grind (arith, checks));
              is_healthy = grind (arith, checks);
              is_head = branch-IsHead run sha (grind (arith, recovery_watched-marks));
              is_last = grind (arith, recovery_watched-marks);
            }
      ]
    ]

-- The same, with what the payload gives.
pub record IsRecoveryWatch (run : Run) (payload : Payload) (s : Site) : Type 0 where
  pub incident : ℕ
  pub check : ℕ
  pub identity : RevertIdentity
  pub sha : Text
  pub id : Text
  pub work : IncidentWork
  pub has_incident : payload.incident_id ≡ some incident
  pub has_check : payload.check ≡ some check
  pub has_identity : identity_from_payload payload ≡ some identity
  pub has_sha : non_blank payload.revert_merge_sha ≡ some sha
  pub has_id : non_blank payload.production_deployment_id ≡ some id
  pub has_work : incident_work incident s.db ≡ ok work
  pub recovered : IsRecovered run work identity sha id check s

-- A watch of a source recovery moves the rollback baseline only in the third check or later, for an
-- escalated incident for which the worker has recorded the creation of this revert pull request, when
-- the deployment, asked for by its id, is of the merged revert and ready in production, the project
-- names it as its production target, the site is healthy and the merged revert is the head of the
-- protected branch.
pub watch_source_recovery_production-IsRecoveryWatch :
    (run : Run) (payload : Payload) (s : Site)
    → (watch_source_recovery_production run payload s).1.db.deployments ≢ s.db.deployments
    → IsRecoveryWatch run payload s
unfolding watch_source_recovery_production
watch_source_recovery_production-IsRecoveryWatch run payload s h =
    elim (Option-cases payload.incident_id) [
      | inl e ↦ absurd (ground arith)
      | inr (incident, e) ↦ elim (Option-cases payload.check) [
        | inl e1 ↦ absurd (ground arith)
        | inr (check, e1) ↦ elim (Option-cases (identity_from_payload payload)) [
          | inl e2 ↦ absurd (ground arith)
          | inr (identity, e2) ↦ elim (Option-cases (non_blank payload.revert_merge_sha)) [
            | inl e3 ↦ absurd (ground arith)
            | inr (sha, e3) ↦ elim (Option-cases (non_blank payload.production_deployment_id)) [
              | inl e4 ↦ absurd (ground arith)
              | inr (id, e4) ↦ elim (Result-cases (incident_work incident s.db)) [
                | inl (_, e5) ↦ absurd (ground arith)
                | inr (work, e5) ↦ record {
                  incident = incident;
                  check = check;
                  identity = identity;
                  sha = sha;
                  id = id;
                  work = work;
                  has_incident = e;
                  has_check = e1;
                  has_identity = e2;
                  has_sha = e3;
                  has_id = e4;
                  has_work = e5;
                  recovered =
                      recovery_watch-IsRecovered run work identity sha id check s (grind arith);
                }
              ]
            ]
          ]
        ]
      ]
    ]
