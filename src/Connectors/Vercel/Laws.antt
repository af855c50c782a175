-- ===== src/Connectors/Vercel/Laws.antt =====
-- At most the current production target is listed as production: crates/nopager-connectors/src/vercel.rs.
use nopager.Prelude.{
  true, false, ◌≡◌, ◌≢◌, ap, ◌∙◌, sym, arith, Option, some, none, List, [], ◌∷◌, map, All, Text,
  text, text_eq_refl, eq_of_text_eq, ok, ◌>>◌, >>=-eq-ok, Option-cases, inl, inr,
}
use nopager.Connectors.Vercel.{
  Deployment, ProjectDetails, is_text, is_current, normalize_current_target,
  normalize_deployment_list, Wire, list_deployments, get_project, validate_id, current_id,
  current_production_target, target_id, ProjectTarget, insert_target,
}

pub is_text-some : (v : Option Text) (name : Text) → is_text v name ≡ true → v ≡ some name
unfolding is_text
is_text-some none name h = absurd (ground arith)
is_text-some (some v) name h = ap some (eq_of_text_eq v name h)

pub is_text-other : (v : Option Text) (name : Text) → is_text v name ≡ false → v ≢ some name
unfolding is_text
is_text-other none name h e = absurd (ground arith)
is_text-other (some v) name h e = absurd (ground (arith, text_eq_refl name))

pub is_text_of_some : (v : Option Text) (name : Text) → v ≡ some name → is_text v name ≡ true
unfolding is_text
is_text_of_some v name e = rw e (text_eq_refl name)

-- The project names the target as its production: it is ready, and neither staged nor rolling.
pub record IsLive (project : ProjectDetails) (target : ProjectTarget) : Type 0 where
  pub is_production : project.production ≡ some target
  pub is_ready : target.ready_state ≡ some (text "READY")
  pub not_staged : target.ready_substate ≢ some (text "STAGED")
  pub not_rolling : target.ready_substate ≢ some (text "ROLLING")

pub current_production_target-IsLive :
    (project : ProjectDetails) (target : ProjectTarget)
    → current_production_target project ≡ some target
    → IsLive project target
unfolding current_production_target is_current
current_production_target-IsLive project target h = elim (Option-cases project.production) [
  | inl e ↦ absurd (ground arith)
  | inr (named, e) ↦
      let same : named ≡ target = ground arith in
      let current : is_current target ≡ true = ground arith in
      record {
        is_production = e ∙ ap some same;
        is_ready = is_text-some target.ready_state (text "READY") (ground arith);
        not_staged = is_text-other target.ready_substate (text "STAGED") (ground arith);
        not_rolling = is_text-other target.ready_substate (text "ROLLING") (ground arith);
      }
]

pub current_id-IsLive :
    (project : ProjectDetails) (id : Text)
    → is_text (current_id project) id ≡ true
    → (target : ProjectTarget) × IsLive project target × (target.id ≡ id)
unfolding is_text
current_id-IsLive project id h = elim (Option-cases (current_production_target project)) [
  | inl e ↦ absurd (ground arith)
  | inr (target, e) ↦ (
    target,
    current_production_target-IsLive project target e,
    eq_of_text_eq target.id id (ground arith),
  )
]

-- A deployment that is production only if it is the current target.
abbrev pub IsProved : Option Text → Deployment → Type 0
IsProved current d = is_text d.target (text "production") ≡ true → is_text current d.id ≡ true

pub normalize-IsProved :
    (current : Option Text) (d : Deployment) → IsProved current (normalize_current_target current d)
unfolding normalize_current_target is_text
normalize-IsProved current d h = grind arith

map-IsProved :
    (current : Option Text) (ds : List Deployment)
    → All (IsProved current) (map (normalize_current_target current) ds)
map-IsProved current [] = tt
map-IsProved current (d ∷ ds) = (normalize-IsProved current d, map-IsProved current ds)

insert_target-IsProved :
    (p : ProjectDetails) (target : Option ProjectTarget) (ds : List Deployment)
    → All (IsProved (target_id target)) ds
    → All (IsProved (target_id target)) (insert_target p target ds)
unfolding insert_target is_text
insert_target-IsProved p none ds h = h
insert_target-IsProved p (some target) ds h = grind (arith, text_eq_refl)

pub normalize_deployment_list-IsProved :
    (ds : List Deployment) (p : ProjectDetails)
    → All (IsProved (current_id p)) (normalize_deployment_list ds p)
unfolding normalize_deployment_list
normalize_deployment_list-IsProved ds p =
    insert_target-IsProved p (current_production_target p)
      (map (normalize_current_target (current_id p)) ds) (map-IsProved (current_id p) ds)

-- The current target behind a deployment that is listed as production.
pub current_target :
    (p : ProjectDetails) (d : Deployment)
    → is_text (current_id p) d.id ≡ true
    → (target : ProjectTarget) × (current_production_target p ≡ some target) × (target.id ≡ d.id)
unfolding is_text
current_target p d h = elim (Option-cases (current_production_target p)) [
  | inl e ↦ absurd (ground arith)
  | inr (target, e) ↦ (target, e, eq_of_text_eq target.id d.id (ground arith))
]

listed :
    (raw : List Deployment) (p : ProjectDetails) (ds : List Deployment)
    → normalize_deployment_list raw p ≡ ds
    → All (IsProved (current_id p)) ds
listed raw p ds e = rw (sym e) (normalize_deployment_list-IsProved raw p)

pub list_deployments-IsProved :
    (wire : Wire) (id : Text) (ds : List Deployment)
    → list_deployments wire id ≡ ok ds
    → (p : ProjectDetails) × (wire.project id ≡ ok p) × All (IsProved (current_id p)) ds
unfolding list_deployments get_project
list_deployments-IsProved wire id ds h =
    let (u, _, k) = >>=-eq-ok (validate_id id) _ h in
    let (raw, _, k1) = >>=-eq-ok (wire.deployments id) _ k in
    let (p, g, k2) = >>=-eq-ok (validate_id id >> wire.project id) _ k1 in
    let (_, _, g1) = >>=-eq-ok (validate_id id) _ g in (p, g1, listed raw p ds (ground arith))
