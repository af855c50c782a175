-- ===== src/Helper/Executor/Inspection.antt =====
-- apps/runtime-helper/src/lib.rs: `inspect_enrolled` and the rejections it answers with.
pub mod Laws
use Prim.Native.String.{String}
use nopager.Prelude.{
  ℕ, Bool, true, false, not, ◌&&◌, ◌||◌, Option, none, some, Text, text_eq, any, if◌then◌else◌,
  Result, ok, err,
}
use nopager.Protocol.{
  ContainerState, RuntimeResponse, rejection, not_started, RuntimeErrorCode,
  docker_daemon_unavailable, target_disappeared, target_replaced, control_plane_target,
  same_control_plane_project, internal_error,
}
use nopager.Helper.Config.{HelperConfig}
use nopager.Helper.Backend.{
  RuntimeBackend, BackendError, daemon_unavailable, not_found, timeout, command_failed,
  invalid_inspect_output, io,
}

pub record Rejection : Type 0 where
  pub code : RuntimeErrorCode
  pub message : String

abbrev pub rejection_response : Rejection → ℕ → RuntimeResponse
rejection_response r id = rejection id r.code not_started r.message

abbrev reject : RuntimeErrorCode → String → Rejection
reject code message = record { code = code; message = message }

unfoldable pub backend_inspect_rejection : BackendError → String → Rejection
backend_inspect_rejection not_found missing_message = reject target_disappeared missing_message
backend_inspect_rejection daemon_unavailable _ =
    reject docker_daemon_unavailable "Docker daemon is unavailable"
backend_inspect_rejection timeout _ =
    reject docker_daemon_unavailable "Docker daemon is unavailable"
backend_inspect_rejection io _ = reject docker_daemon_unavailable "Docker daemon is unavailable"
backend_inspect_rejection command_failed _ =
    reject internal_error "Docker returned an invalid bounded inspection result"
backend_inspect_rejection invalid_inspect_output _ =
    reject internal_error "Docker returned an invalid bounded inspection result"

-- `==` on `Option<String>`
unfoldable pub option_text_eq : Option Text → Option Text → Bool
option_text_eq none none = true
option_text_eq (some a) (some b) = text_eq a b
option_text_eq _ _ = false

-- The tests on the two answers of Docker, in the order of the source.
unfoldable pub check_target :
    HelperConfig → ContainerState → ContainerState → Result Rejection ContainerState
check_target c target named =
    if not (text_eq target.id c.enrolled_target.id)
      || not (text_eq named.id c.enrolled_target.id)
      || not (text_eq target.name c.enrolled_target.name)
    then err (
        reject target_replaced
          "target name or immutable container identity changed after enrollment")
    else if target.nopager_control_plane || any (λ id. text_eq id target.id) c.denied_container_ids
    then err (reject control_plane_target "NoPager control-plane resources cannot be targeted")
    else if option_text_eq target.compose_project (some c.control_plane_compose_project)
    then err (
        reject same_control_plane_project "same-control-plane Compose resources cannot be targeted")
    else if not (option_text_eq target.compose_project c.enrolled_target.compose_project)
    then err (reject target_replaced "target Compose identity differs from enrollment")
    else ok target

-- A call of the backend with `?`: go on with the answer and the new world.
abbrev pub try_call {ℓ} :
    {W : Type 0} {A : Type 0} {B : Type ℓ}
    → Result BackendError A × W
    → (BackendError → Rejection)
    → (A → W → Result Rejection B × W)
    → Result Rejection B × W
try_call (ok a, w) on_error k = k a w
try_call (err e, w) on_error k = (err (on_error e), w)

unfoldable pub inspect_enrolled :
    {W : Type 0} → RuntimeBackend W → HelperConfig → W → Result Rejection ContainerState × W
inspect_enrolled b c w =
    try_call (b.daemon_available w)
      (λ _. reject docker_daemon_unavailable "Docker daemon is unavailable")
      λ _ w1.
        try_call (b.inspect c.enrolled_target.id w1)
          (λ e. backend_inspect_rejection e "enrolled target disappeared")
          λ target w2.
            try_call (b.inspect c.enrolled_target.name w2)
              (λ e. backend_inspect_rejection e "enrolled target name disappeared")
              λ named w3. (check_target c target named, w3)
