-- ===== src/Production/Rollback/Guards.antt =====
-- When the worker sends production traffic back: apps/worker/src/main.rs.
use Prim.Native.String.{String}
use nopager.Prelude.{
  ℕ, true, false, ◌≡◌, ◌≢◌, ◌⊎◌, refl, arith, Option, none, some, ◌∷◌, Text, text_eq, eq_of_text_eq,
  Bool-cases, Option-cases, Result-cases, inl, inr, ok,
}
use nopager.Core.Incident.{rolling_back, state_eq_iff}
use nopager.Connectors.Vercel.Laws.{is_text-some, IsLive, current_production_target-IsLive}
use nopager.Connectors.Vercel.{
  is_text, Wire, ProjectDetails, ProjectTarget, get_project, current_production_target,
}
use nopager.Production.Site.{Site, Run, pause}
use nopager.Production.Rollback.{
  rollback_target_is_controlled, source_repair_merged, roll_back, block_rollback, roll_back_from,
  rollback_action, process_rollback_action,
}
use nopager.Store.Schema.{Payload, AttemptRow, DeploymentRow}
use nopager.Store.Deployments.{
  IncidentWork, incident_work, repair_attempt, latest_known_good_deployment,
}

-- The current production target may be replaced by the rollback that the payload asks for: it is the
-- known-good deployment, the one that the payload expects, or one of the repair commit whose repair
-- is not merged.
abbrev pub IsControlled : Payload → AttemptRow → DeploymentRow → ProjectTarget → Type 0
IsControlled payload attempt known_good target =
    (target.id ≡ known_good.provider_deployment_id)
    ⊎ ((payload.expected_production_id ≡ some target.id)
        ⊎ ((payload.source_repair_merged ≢ some true)
            × (sha : Text) × (attempt.repair_commit_sha ≡ some sha)
            × (target.commit_sha ≡ some sha)))

of_repair_commit :
    (current repair : Option Text)
    → elim repair [ none ↦ false | some sha ↦ is_text current sha ] ≡ true
    → (sha : Text) × (repair ≡ some sha) × (current ≡ some sha)
of_repair_commit current none h = absurd (ground arith)
of_repair_commit current (some sha) h = (sha, refl, is_text-some current sha h)

rollback_target-IsControlled :
    (payload : Payload) (attempt : AttemptRow) (known_good : DeploymentRow) (target : ProjectTarget)
    → rollback_target_is_controlled target.id target.commit_sha known_good.provider_deployment_id
        payload.expected_production_id attempt.repair_commit_sha
        (source_repair_merged payload)
      ≡ true
    → IsControlled payload attempt known_good target
unfolding rollback_target_is_controlled
rollback_target-IsControlled payload attempt known_good target h =
    elim (Bool-cases (text_eq target.id known_good.provider_deployment_id)) [
      | inl t ↦ inl (eq_of_text_eq target.id known_good.provider_deployment_id t)
      | inr t ↦ elim (Bool-cases (is_text payload.expected_production_id target.id)) [
        | inl u ↦ inr (inl (is_text-some payload.expected_production_id target.id u))
        | inr u ↦
            let (sha, wanted, found) =
              of_repair_commit target.commit_sha attempt.repair_commit_sha (ground arith) in
            inr (inr ((λ merged. absurd (ground arith)), sha, wanted, found))
      ]
    ]

-- What a run that asks Vercel for a rollback has found.
pub record IsAllowed (run : Run) (payload : Payload) (work : IncidentWork) (s : Site) : Type 0 where
  pub known_good : DeploymentRow
  pub attempt : AttemptRow
  pub wire : Wire
  pub project_id : Text
  pub project : ProjectDetails
  pub target : ProjectTarget
  pub is_latest : latest_known_good_deployment work.incident.project_id s.db ≡ some known_good
  pub has_client : run.vercel ≡ some wire
  pub has_project : run.vercel_project_id ≡ some project_id
  pub asked : get_project wire project_id ≡ ok project
  pub is_target : IsLive project target
  pub is_controlled : IsControlled payload attempt known_good target

roll_back_log :
    (wire : Wire) (project_id known_good : Text) (work : IncidentWork) (attempt : ℕ)
    (payload : Payload) (s : Site)
    → (roll_back wire project_id known_good work attempt payload s).1.rollbacks
      ≡ known_good ∷ s.rollbacks
unfolding roll_back
roll_back_log wire project_id known_good work attempt payload s = grind arith

block_rollback_log :
    (work : IncidentWork) (target : Text) (s : Site)
    → (block_rollback work target s).1.rollbacks ≡ s.rollbacks
unfolding block_rollback
block_rollback_log work target s = grind arith

module _ (run : Run) (payload : Payload) (work : IncidentWork) (s : Site) where
  rollback_action_guarded :
      (attempt_id : ℕ)
      → (rollback_action run work attempt_id payload s).1.rollbacks ≢ s.rollbacks
      → (a : IsAllowed run payload work s) × (repair_attempt attempt_id s.db ≡ ok a.attempt)
        × ((rollback_action run work attempt_id payload s).1.rollbacks
            ≡ a.known_good.provider_deployment_id ∷ s.rollbacks)
  unfolding rollback_action roll_back_from
  rollback_action_guarded attempt_id h = elim (Option-cases run.vercel_project_id) [
    | inl e ↦ absurd (ground arith)
    | inr (project_id, e) ↦
        elim (Option-cases (latest_known_good_deployment work.incident.project_id s.db)) [
          | inl e1 ↦ absurd (ground arith)
          | inr (known_good, e1) ↦ elim (Result-cases (repair_attempt attempt_id s.db)) [
            | inl (_, e2) ↦ absurd (ground arith)
            | inr (attempt, e2) ↦ elim (Option-cases run.vercel) [
              | inl e3 ↦ absurd (ground arith)
              | inr (wire, e3) ↦ elim (Result-cases (get_project wire project_id)) [
                | inl (_, e4) ↦ absurd (ground arith)
                | inr (project, e4) ↦ elim (Option-cases (current_production_target project)) [
                  | inl e5 ↦ absurd (grind (arith, block_rollback_log))
                  | inr (target, e5) ↦ (
                    record {
                      known_good = known_good;
                      attempt = attempt;
                      wire = wire;
                      project_id = project_id;
                      project = project;
                      target = target;
                      is_latest = e1;
                      has_client = e3;
                      has_project = e;
                      asked = e4;
                      is_target = current_production_target-IsLive project target e5;
                      is_controlled =
                          rollback_target-IsControlled payload attempt known_good target
                            (grind (arith, block_rollback_log));
                    },
                    e2,
                    grind (arith, block_rollback_log, roll_back_log),
                  )
                ]
              ]
            ]
          ]
        ]
  ]

pause_log :
    (work : IncidentWork) (message : String) (s : Site)
    → (pause work message s).1.rollbacks ≡ s.rollbacks
unfolding pause
pause_log work message s = grind arith

-- What a rollback job that asks Vercel for a rollback has found, and what it asks for.
pub record IsGuarded (run : Run) (payload : Payload) (s : Site) : Type 0 where
  pub incident : ℕ
  pub attempt_id : ℕ
  pub work : IncidentWork
  pub has_incident : payload.incident_id ≡ some incident
  pub has_attempt : payload.attempt_id ≡ some attempt_id
  pub has_work : incident_work incident s.db ≡ ok work
  pub not_paused : work.project.protection_paused ≡ false
  pub is_rolling_back : work.incident.status ≡ rolling_back
  pub allowed : IsAllowed run payload work s
  pub is_attempt : repair_attempt attempt_id s.db ≡ ok allowed.attempt
  pub asks_once :
      (process_rollback_action run payload s).1.rollbacks
      ≡ allowed.known_good.provider_deployment_id ∷ s.rollbacks

-- If a rollback job asks Vercel for a rollback, then the project is not paused, the incident is rolling
-- back, the project names a production target that is ready and neither staged nor rolling, and that
-- target is the known-good deployment, the deployment the job expects, or one of the repair commit
-- with no source repair merged; and the run asks once, for the latest known-good deployment.
pub process_rollback_action-IsGuarded :
    (run : Run) (payload : Payload) (s : Site)
    → (process_rollback_action run payload s).1.rollbacks ≢ s.rollbacks
    → IsGuarded run payload s
unfolding process_rollback_action
process_rollback_action-IsGuarded run payload s h = elim (Option-cases payload.incident_id) [
  | inl e ↦ absurd (ground arith)
  | inr (incident, e) ↦ elim (Option-cases payload.attempt_id) [
    | inl e1 ↦ absurd (ground arith)
    | inr (attempt_id, e1) ↦ elim (Result-cases (incident_work incident s.db)) [
      | inl (_, e2) ↦ absurd (ground arith)
      | inr (work, e2) ↦
          let (a, found, log) =
            rollback_action_guarded run payload work s attempt_id (grind (arith, pause_log)) in
          record {
            incident = incident;
            attempt_id = attempt_id;
            work = work;
            has_incident = e;
            has_attempt = e1;
            has_work = e2;
            not_paused = grind (arith, pause_log);
            is_rolling_back = grind (arith, pause_log, state_eq_iff);
            allowed = a;
            is_attempt = found;
            asks_once = grind (arith, pause_log, log);
          }
    ]
  ]
]
