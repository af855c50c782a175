-- ===== src/Production/Discovery.antt =====
-- apps/worker/src/production.rs: is a commit the current production deployment?
pub mod Laws
use nopager.Prelude.{
  ℕ, Bool, true, false, not, ◌&&◌, ◌||◌, Option, none, some, List, [], ◌∷◌, ◌++◌, Text, text,
  text_eq, ltb, starts_with, if◌then◌else◌, Result, ok, err, ◌>>=◌,
}
use nopager.Connectors.Vercel.{
  ConnectorError, Deployment, Wire, is_text, get_deployment, list_deployments, rollback,
}

pub record ProductionDeployment : Type 0 where
  pub id : Text
  pub commit_sha : Text
  pub url : Text

pub data ProductionReadiness : Type 0 where
  pending ready : ProductionReadiness

pub data ProductionDiscovery : Type 0 where
  pending : ProductionDiscovery
  ready : ProductionDeployment → ProductionDiscovery

-- The errors of these functions: an answer of Vercel, or one of their `bail!`s.
pub data DiscoveryError : Type 0 where
  connector : ConnectorError → DiscoveryError
  failed commit_changed not_current : DiscoveryError

unfoldable pub deployment_matches_commit : Deployment → Text → Bool
deployment_matches_commit deployment commit_sha = is_text deployment.commit_sha commit_sha

-- `ready_state.or(state)`
unfoldable pub reported_state : Deployment → Option Text
reported_state deployment = elim deployment.ready_state [
  | none ↦ deployment.state
  | some state ↦ some state
]

unfoldable pub deployment_failed : Deployment → Bool
deployment_failed deployment =
    let state = reported_state deployment in
    is_text state (text "ERROR")
    || is_text state (text "CANCELED")
    || is_text state (text "CANCELLED")

unfoldable pub production_readiness : Deployment → ProductionReadiness
production_readiness deployment =
    if is_text deployment.ready_state (text "READY")
      && is_text deployment.target (text "production")
    then ProductionReadiness.ready
    else ProductionReadiness.pending

unfoldable pub is_candidate : Text → Deployment → Bool
is_candidate commit_sha deployment =
    is_text deployment.target (text "production") && deployment_matches_commit deployment commit_sha

unfoldable pub created_or_zero : Deployment → ℕ
created_or_zero deployment = elim deployment.created [ none ↦ 0 | some time ↦ time ]

-- `max_by_key`, which keeps the last of several largest.
unfoldable pub later : Deployment → Option Deployment → Deployment
later d none = d
later d (some e) = if ltb (created_or_zero e) (created_or_zero d) then d else e

unfoldable pub newest_production_candidate : List Deployment → Text → Option Deployment
newest_production_candidate [] commit_sha = none
newest_production_candidate (d ∷ ds) commit_sha =
    let rest = newest_production_candidate ds commit_sha in
    if is_candidate commit_sha d then some (later d rest) else rest

unfoldable pub https_url : Text → Text
https_url value = if starts_with value (text "https://") then value else text "https://" ++ value

-- `?` on a connector's result.
unfoldable pub from_connector {ℓ} : {T : Type ℓ} → Result ConnectorError T → Result DiscoveryError T
from_connector (err e) = err (connector e)
from_connector (ok value) = ok value

unfoldable pub current_live_production_readiness :
    Wire → Text → Result DiscoveryError ProductionReadiness
current_live_production_readiness wire id = from_connector (get_deployment wire 0 id) >>= λ current.
    if deployment_failed current then err failed else ok (production_readiness current)

unfoldable pub current_production_readiness :
    Wire → Text → Text → Result DiscoveryError ProductionReadiness
current_production_readiness wire id commit_sha =
    from_connector (get_deployment wire 0 id) >>= λ current.
    if deployment_failed current
    then err failed
    else if not (deployment_matches_commit current commit_sha)
    then err commit_changed
    else ok (production_readiness current)

unfoldable pub verify_current_production : Wire → Text → Text → Result DiscoveryError (Unit {0})
verify_current_production wire id commit_sha =
    current_production_readiness wire id commit_sha >>= λ (readiness : ProductionReadiness).
    elim readiness [
      | ProductionReadiness.ready ↦ ok tt
      | ProductionReadiness.pending ↦ err not_current
    ]

-- The end of `find_current_production_for_commit`: the candidate is asked for once more.
unfoldable pub discover :
    Wire → Text → Text → ProductionReadiness → Result DiscoveryError ProductionDiscovery
discover wire id commit_sha ProductionReadiness.pending = ok ProductionDiscovery.pending
discover wire id commit_sha ProductionReadiness.ready =
    from_connector (get_deployment wire 1 id) >>= λ current. ok (
      ProductionDiscovery.ready
        (record { id = current.id; commit_sha = commit_sha; url = https_url current.url }))

unfoldable pub find_in : Wire → Text → List Deployment → Result DiscoveryError ProductionDiscovery
find_in wire commit_sha deployments = elim (newest_production_candidate deployments commit_sha) [
  | none ↦ ok ProductionDiscovery.pending
  | some candidate ↦
      if deployment_failed candidate
      then err failed
      else current_production_readiness wire candidate.id commit_sha
        >>= discover wire candidate.id commit_sha
]

unfoldable pub find_current_production_for_commit :
    Wire → Text → Text → Result DiscoveryError ProductionDiscovery
find_current_production_for_commit wire project_id commit_sha =
    from_connector (list_deployments wire project_id) >>= find_in wire commit_sha
