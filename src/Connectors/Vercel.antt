-- ===== src/Connectors/Vercel.antt =====
-- crates/nopager-connectors/src/vercel.rs: what the client makes of Vercel's answers. Of `meta` only
-- `githubCommitSha` is kept, of `targets` only the entry "production". What Vercel answers is a
-- parameter; a transport, status or decoding error is `api`.
pub mod Laws
use nopager.Prelude.{
  ℕ, Bool, true, false, not, ◌||◌, ◌&&◌, Option, none, some, List, [], ◌∷◌, map, Text, text,
  text_eq, any, is_empty, starts_with, ◌==◌, if◌then◌else◌, Result, ok, err, ◌>>=◌, ◌>>◌, refuse_if,
  trim,
}

pub data ConnectorError : Type 0 where
  invalid_configuration api : ConnectorError

pub record Deployment : Type 0 where
  pub id : Text
  pub url : Text
  pub ready_state : Option Text
  pub state : Option Text
  pub created : Option ℕ
  pub target : Option Text
  pub project_id : Option Text
  pub commit_sha : Option Text

pub record ProjectTarget : Type 0 where
  pub id : Text
  pub url : Text
  pub ready_state : Option Text
  pub ready_substate : Option Text
  pub commit_sha : Option Text

pub record ProjectLink : Type 0 where
  pub kind : Option Text
  pub org : Option Text
  pub repo : Option Text
  pub repo_id : Option ℕ
  pub production_branch : Option Text

pub record ProjectDetails : Type 0 where
  pub id : Text
  pub name : Text
  pub link : Option ProjectLink
  pub production : Option ProjectTarget

-- `value.as_deref() == Some(name)`
unfoldable pub is_text : Option Text → Text → Bool
is_text none name = false
is_text (some value) name = text_eq value name

unfoldable pub github_link : ProjectDetails → Option ProjectLink
unfolding is_text
github_link project = elim project.link [
  | none ↦ none
  | some link ↦
      if is_text link.kind (text "github") || is_text link.kind (text "github-limited")
      then some link
      else none
]

-- `.filter(|value| !value.trim().is_empty())`
unfoldable pub non_blank : Option Text → Option Text
non_blank none = none
non_blank (some value) = if is_empty (trim value) then none else some value

unfoldable pub git_production_branch : ProjectDetails → Option Text
git_production_branch project = elim (github_link project) [
  | none ↦ none
  | some link ↦ non_blank link.production_branch
]

unfoldable pub is_current : ProjectTarget → Bool
is_current target =
    is_text target.ready_state (text "READY")
    && not (
        is_text target.ready_substate (text "STAGED")
        || is_text target.ready_substate (text "ROLLING"))

unfoldable pub current_production_target : ProjectDetails → Option ProjectTarget
current_production_target project = elim project.production [
  | none ↦ none
  | some target ↦ if is_current target then some target else none
]

abbrev pub target_id : Option ProjectTarget → Option Text
target_id none = none
target_id (some target) = some target.id

abbrev pub current_id : ProjectDetails → Option Text
current_id project = target_id (current_production_target project)

unfoldable pub normalize_current_target : Option Text → Deployment → Deployment
normalize_current_target current deployment =
    if is_text current deployment.id
    then record deployment { target = some (text "production") }
    else if is_text deployment.target (text "production")
    then record deployment { target = none }
    else deployment

-- The row that stands for a current target which the list lacks.
abbrev pub target_deployment : ProjectDetails → ProjectTarget → Deployment
target_deployment project target = record {
  id = target.id;
  url = target.url;
  ready_state = target.ready_state;
  state = none;
  created = none;
  target = some (text "production");
  project_id = some project.id;
  commit_sha = target.commit_sha;
}

unfoldable pub insert_target :
    ProjectDetails → Option ProjectTarget → List Deployment → List Deployment
insert_target project none deployments = deployments
insert_target project (some target) deployments =
    if any (λ d. text_eq d.id target.id) deployments
    then deployments
    else target_deployment project target ∷ deployments

unfoldable pub normalize_deployment_list : List Deployment → ProjectDetails → List Deployment
normalize_deployment_list deployments project =
    insert_target project (current_production_target project)
      (map (normalize_current_target (current_id project)) deployments)

unfoldable pub has_parent_segment : Text → Bool
has_parent_segment [] = false
has_parent_segment (c ∷ s) = starts_with (c ∷ s) (text "..") || has_parent_segment s

unfoldable pub validate_id : Text → Result ConnectorError (Unit {0})
validate_id value =
    refuse_if
      (is_empty value
        || any (λ c. c == b'/') value
        || any (λ c. c == b'\\') value
        || has_parent_segment value)
      ConnectorError.invalid_configuration

-- What Vercel answers during one run: `v9/projects/{id}`, `v13/deployments/{id}`, `v6/deployments`,
-- the production rebuild, which takes the project's name and answers an id, and the rollback. A
-- deployment may be asked for twice in a run, so its answer has a turn.
pub record Wire : Type 0 where
  pub project : Text → Result ConnectorError ProjectDetails
  pub deployment : ℕ → Text → Result ConnectorError Deployment
  pub deployments : Text → Result ConnectorError (List Deployment)
  pub rebuild : Text → Text → Result ConnectorError (Option Text)
  pub roll_back : Text → Text → Result ConnectorError (Unit {0})

unfoldable pub get_project : Wire → Text → Result ConnectorError ProjectDetails
get_project wire id = validate_id id >> wire.project id

unfoldable pub get_deployment : Wire → ℕ → Text → Result ConnectorError Deployment
get_deployment wire turn id =
    validate_id id
    >> (wire.deployment turn id >>= λ deployment. elim deployment.project_id [
      | none ↦
          if is_text deployment.target (text "production")
          then err ConnectorError.invalid_configuration
          else ok deployment
      | some project_id ↦ get_project wire project_id >>= λ project.
          ok (normalize_current_target (current_id project) deployment)
    ])

unfoldable pub list_deployments : Wire → Text → Result ConnectorError (List Deployment)
list_deployments wire project_id =
    validate_id project_id
    >> (wire.deployments project_id >>= λ deployments. get_project wire project_id >>= λ project.
        ok (normalize_deployment_list deployments project))

unfoldable pub rollback : Wire → Text → Text → Result ConnectorError (Unit {0})
rollback wire project_id deployment_id =
    validate_id project_id >> (validate_id deployment_id >> wire.roll_back project_id deployment_id)

unfoldable pub promote : Wire → Text → Text → Result ConnectorError (Unit {0})
promote wire project_id deployment_id =
    validate_id project_id
    >> (validate_id deployment_id
        >> (get_project wire project_id >>= λ project.
            wire.rebuild project.name deployment_id >>= λ (id : Option Text). elim id [
              | none ↦ err api
              | some value ↦ refuse_if (is_empty value) api
            ]))
