-- ===== src/Helper/Executor/Inspection/Laws.antt =====
-- What a successful inspection proves of the container: apps/runtime-helper/src/lib.rs.
use nopager.Prelude.{
  true, false, ◌≡◌, refl, ◌≢◌, arith, Option, none, some, Text, text_eq, text_eq_iff, any, Result,
  ok, err,
}
use nopager.Protocol.{ContainerState}
use nopager.Helper.Config.{HelperConfig}
use nopager.Helper.Backend.{RuntimeBackend, BackendError}
use nopager.Helper.Executor.Inspection.{
  Rejection, try_call, check_target, inspect_enrolled, option_text_eq,
}

-- What the helper asks of a container before it answers for it.
pub record IsEnrolled (c : HelperConfig) (s : ContainerState) : Type 0 where
  pub same_id : s.id ≡ c.enrolled_target.id
  pub same_name : s.name ≡ c.enrolled_target.name
  pub same_project : s.compose_project ≡ c.enrolled_target.compose_project
  pub not_control_plane : s.nopager_control_plane ≡ false
  pub other_project : s.compose_project ≢ some c.control_plane_compose_project
  pub not_denied : any (λ id. text_eq id s.id) c.denied_container_ids ≡ false

eq_of_option_text_eq : (a b : Option Text) → option_text_eq a b ≡ true → a ≡ b
unfolding option_text_eq
eq_of_option_text_eq none none h = refl
eq_of_option_text_eq (some a) (some b) h = ground (arith, text_eq_iff a b)
eq_of_option_text_eq none (some b) h = cc
eq_of_option_text_eq (some a) none h = cc

option_text_eq-some : (a : Option Text) (b : Text) → option_text_eq a (some b) ≡ false → a ≢ some b
unfolding option_text_eq
option_text_eq-some none b h = cc
option_text_eq-some (some a) b h = ground (arith, text_eq_iff a b)

pub check_target-IsEnrolled :
    (c : HelperConfig) (target named s : ContainerState)
    → check_target c target named ≡ ok s
    → IsEnrolled c s
unfolding check_target
check_target-IsEnrolled c target named s h = ground (
  arith,
  text_eq_iff target.id c.enrolled_target.id,
  text_eq_iff target.name c.enrolled_target.name,
  eq_of_option_text_eq target.compose_project c.enrolled_target.compose_project,
  option_text_eq-some target.compose_project c.control_plane_compose_project,
)

try_call-ok {ℓ} :
    {W : Type 0} {A : Type 0} {B : Type ℓ} (r : Result BackendError A × W)
    (on_error : BackendError → Rejection) (k : A → W → Result Rejection B × W) {x : B}
    → (try_call r on_error k).0 ≡ ok x
    → (a : A) × (w : W) × ((k a w).0 ≡ ok x)
try_call-ok (ok a, w) on_error k h = (a, w, h)
try_call-ok (err e, w) on_error k h = cc

-- An inspection that succeeds, whatever Docker answers, has seen the enrolled container: its id,
-- name and Compose project are the enrolled ones, and it is no part of the control plane, neither by
-- its label, nor by the deny list, nor by its Compose project.
pub inspect_enrolled-IsEnrolled :
    {W : Type 0} (b : RuntimeBackend W) (c : HelperConfig) (w : W) {s : ContainerState}
    → (inspect_enrolled b c w).0 ≡ ok s
    → IsEnrolled c s
unfolding inspect_enrolled
inspect_enrolled-IsEnrolled b c w h =
    let (_, w1, h1) = try_call-ok (b.daemon_available w) _ _ h in
    let (target, w2, h2) = try_call-ok (b.inspect c.enrolled_target.id w1) _ _ h1 in
    let (named, w3, h3) = try_call-ok (b.inspect c.enrolled_target.name w2) _ _ h2 in
    check_target-IsEnrolled c target named _ h3
