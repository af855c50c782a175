-- ===== src/Production/Discovery/Laws.antt =====
-- What a discovery proves of production: apps/worker/src/production.rs.
use nopager.Prelude.{
  ◌≤◌, true, ◌≡◌, arith, some, none, false, ◌≢◌, text, List, [], ◌∷◌, All, Text, Option-cases, inl,
  inr, ◌⊎◌, Result-cases, ok,
}
use nopager.Connectors.Vercel.{
  Deployment, ProjectDetails, Wire, list_deployments, get_deployment, ProjectTarget,
}
use nopager.Connectors.Vercel.Laws.{is_text-some, is_text-other, IsLive}
use nopager.Production.Discovery.{
  ProductionDeployment, ProductionReadiness, pending, from_connector, current_production_readiness,
  ready, deployment_failed, reported_state, deployment_matches_commit, production_readiness,
  verify_current_production, is_candidate, created_or_zero, later, newest_production_candidate,
  ProductionDiscovery,
}

-- No other candidate of the list was created later.
abbrev pub IsNewest : Text → List Deployment → Deployment → Type 0
IsNewest commit_sha ds d =
    All (λ e. is_candidate commit_sha e ≡ true → created_or_zero e ≤ created_or_zero d) ds

weaken-IsNewest :
    (commit_sha : Text) (ds : List Deployment) (d e : Deployment)
    → created_or_zero e ≤ created_or_zero d
    → IsNewest commit_sha ds e
    → IsNewest commit_sha ds d
weaken-IsNewest commit_sha [] d e h a = tt
weaken-IsNewest commit_sha (x ∷ ds) d e h a =
    (λ c. omega (arith, h, a.0 c), weaken-IsNewest commit_sha ds d e h a.1)

IsNewest-trivial :
    (commit_sha : Text) (ds : List Deployment) (d : Deployment)
    → newest_production_candidate ds commit_sha ≡ none
    → IsNewest commit_sha ds d
unfolding newest_production_candidate
IsNewest-trivial commit_sha [] d h = tt
IsNewest-trivial commit_sha (x ∷ ds) d h =
    (λ c. absurd (ground arith), IsNewest-trivial commit_sha ds d (ground arith))

-- What `newest_production_candidate` picks is a production deployment of the commit, and no other one
-- of the list was created later.
pub newest_production_candidate-IsNewest :
    (commit_sha : Text) (ds : List Deployment) (d : Deployment)
    → newest_production_candidate ds commit_sha ≡ some d
    → (is_candidate commit_sha d ≡ true) × IsNewest commit_sha ds d
unfolding newest_production_candidate later
newest_production_candidate-IsNewest commit_sha [] d h = absurd (ground arith)
newest_production_candidate-IsNewest commit_sha (x ∷ ds) d h =
    elim (Option-cases (newest_production_candidate ds commit_sha)) [
      | inl e ↦ (ground arith, ((λ c. ground arith), IsNewest-trivial commit_sha ds d e))
      | inr (y, e) ↦
          let rest = newest_production_candidate-IsNewest commit_sha ds y e in
          (
            grind (arith, rest),
            ((λ c. grind (arith, rest)), weaken-IsNewest commit_sha ds d y (grind arith) rest.1),
          )
    ]

-- Vercel does not report the deployment as failed.
abbrev pub HasNotFailed : Deployment → Type 0
HasNotFailed d =
    (reported_state d ≢ some (text "ERROR"))
    × (reported_state d ≢ some (text "CANCELED"))
    × (reported_state d ≢ some (text "CANCELLED"))

deployment_failed-HasNotFailed : (d : Deployment) → deployment_failed d ≡ false → HasNotFailed d
unfolding deployment_failed
deployment_failed-HasNotFailed d h = (
  is_text-other (reported_state d) (text "ERROR") (ground arith),
  is_text-other (reported_state d) (text "CANCELED") (ground arith),
  is_text-other (reported_state d) (text "CANCELLED") (ground arith),
)

-- Asked for by its id, the deployment has not failed and is of the commit.
pub record IsAnswered (wire : Wire) (id commit_sha : Text) : Type 0 where
  pub current : Deployment
  pub answered : get_deployment wire 0 id ≡ ok current
  pub not_failed : HasNotFailed current
  pub same_commit : current.commit_sha ≡ some commit_sha

-- It is moreover ready in production.
pub record IsReady (wire : Wire) (id commit_sha : Text) : Type 0 where
  pub of_commit : IsAnswered wire id commit_sha
  pub is_ready : of_commit.current.ready_state ≡ some (text "READY")
  pub in_production : of_commit.current.target ≡ some (text "production")

pub current_production_readiness-IsAnswered :
    (wire : Wire) (id commit_sha : Text) (r : ProductionReadiness)
    → current_production_readiness wire id commit_sha ≡ ok r
    → (a : IsAnswered wire id commit_sha) × (production_readiness a.current ≡ r)
unfolding current_production_readiness from_connector deployment_matches_commit
current_production_readiness-IsAnswered wire id commit_sha r h =
    elim (Result-cases (get_deployment wire 0 id)) [
      | inl (_, e) ↦ absurd (ground arith)
      | inr (d, e) ↦ (
        record {
          current = d;
          answered = e;
          not_failed = deployment_failed-HasNotFailed d (ground arith);
          same_commit = is_text-some d.commit_sha commit_sha (ground arith);
        },
        ground arith,
      )
    ]

pub current_production_readiness-IsReady :
    (wire : Wire) (id commit_sha : Text)
    → current_production_readiness wire id commit_sha ≡ ok ready
    → IsReady wire id commit_sha
unfolding production_readiness
current_production_readiness-IsReady wire id commit_sha h =
    let (a, r) = current_production_readiness-IsAnswered wire id commit_sha ready h in
    record {
      of_commit = a;
      is_ready = is_text-some a.current.ready_state (text "READY") (ground arith);
      in_production = is_text-some a.current.target (text "production") (ground arith);
    }

pub verify_current_production-IsReady :
    (wire : Wire) (id commit_sha : Text)
    → verify_current_production wire id commit_sha ≡ ok tt
    → IsReady wire id commit_sha
unfolding verify_current_production
verify_current_production-IsReady wire id commit_sha h =
    elim (Result-cases (current_production_readiness wire id commit_sha)) [
      | inl (_, e) ↦ absurd (ground arith)
      | inr (r, e) ↦ current_production_readiness-IsReady wire id commit_sha (ground arith)
    ]

-- What a discovery that is ready has seen of production.
pub record IsCurrent (wire : Wire) (project_id commit_sha : Text) (p : ProductionDeployment)
    : Type 0 where
  pub project : ProjectDetails
  pub target : ProjectTarget
  pub answer : Deployment
  pub asked : wire.project project_id ≡ ok project
  pub is_target : IsLive project target
  pub is_ready : IsReady wire target.id commit_sha
  pub answered : get_deployment wire 1 target.id ≡ ok answer
  pub same_id : p.id ≡ answer.id
  pub same_commit : p.commit_sha ≡ commit_sha

-- A production deployment of the commit that Vercel lists and that is not ready yet.
pub record IsUnready (wire : Wire) (commit_sha : Text) (d : Deployment) : Type 0 where
  pub in_production : d.target ≡ some (text "production")
  pub same_commit : d.commit_sha ≡ some commit_sha
  pub not_failed : HasNotFailed d
  pub of_commit : IsAnswered wire d.id commit_sha
  pub not_ready :
      (of_commit.current.ready_state ≢ some (text "READY"))
      ⊎ (of_commit.current.target ≢ some (text "production"))

-- Production is not there yet: Vercel lists no production deployment of the commit, or one that is
-- not ready.
pub record IsPending (wire : Wire) (project_id commit_sha : Text) : Type 0 where
  pub listed : List Deployment
  pub asked : list_deployments wire project_id ≡ ok listed
  pub reason :
      All (λ d. (d.target ≢ some (text "production")) ⊎ (d.commit_sha ≢ some commit_sha)) listed
      ⊎ ((d : Deployment) × IsUnready wire commit_sha d)

abbrev pub IsFound : Wire → Text → Text → ProductionDiscovery → Type 0
IsFound wire project_id commit_sha ProductionDiscovery.pending =
    IsPending wire project_id commit_sha
IsFound wire project_id commit_sha (ProductionDiscovery.ready p) =
    IsCurrent wire project_id commit_sha p
