-- ===== src/Helper/Executor.antt =====
-- apps/runtime-helper/src/lib.rs: `RuntimeExecutor`, which answers one request at a time. The state
-- holds the journal and Docker's world; `restarts` logs each call of `restart_exact`, newest first,
-- and no code reads it. SHA-256 is a parameter, and its constant-time comparison is `==`.
pub mod Inspection
pub mod Restart
pub mod Once
use Prim.Native.String.{String}
use nopager.Prelude.{
  ℕ, Bool, true, false, not, ◌&&◌, ◌||◌, List, [], ◌∷◌, Text, text_eq, byte_len, ltb, ◌==◌,
  if◌then◌else◌, Result, ok, err,
}
use nopager.Protocol.{
  ContainerState, RuntimeResponse, RuntimeRequest, RuntimeAction, inspect, restart_container,
  target_id, protocol_version, success_response, rejection, inspected, MutationDisposition,
  not_started, authentication_failed, peer_not_allowed, protocol_version_unsupported,
  target_not_enrolled, RuntimeErrorCode,
}
use nopager.Helper.Config.{HelperConfig, ConfigError, validate}
use nopager.Helper.Backend.{RuntimeBackend}
use nopager.Helper.Executor.Inspection.{Rejection, inspect_enrolled, rejection_response}
use nopager.Helper.Executor.Restart.{HelperState, Faults, restart}

pub record RuntimeExecutor : Type 0 where
  pub config : HelperConfig
  pub credential_digest : ℕ

pub data ExecutorError : Type 0 where
  config_error : ConfigError → ExecutorError
  credential_too_short : ExecutorError
  unsafe_enrollment : RuntimeErrorCode → ExecutorError

module _ {W : Type 0} (backend : RuntimeBackend W) (sha256 : Text → ℕ) where
  -- `RuntimeExecutor::new`, but for the creation of the journal's directory
  new_executor : HelperConfig → Text → Result ExecutorError RuntimeExecutor
  new_executor config credential = elim (validate config) [
    | err e ↦ err (config_error e)
    | ok _ ↦
        if ltb (byte_len credential) 32
        then err credential_too_short
        else ok (record { config = config; credential_digest = sha256 credential })
  ]

  validate_startup : RuntimeExecutor → W → Result ExecutorError ContainerState × W
  validate_startup x w =
      let (r, w') = inspect_enrolled backend x.config w in
      (elim r [ ok state ↦ ok state | err rejected ↦ err (unsafe_enrollment rejected.code) ], w')

  handle_inspect : RuntimeExecutor → ℕ → HelperState W → RuntimeResponse × HelperState W
  handle_inspect x id s =
      let (r, w) = inspect_enrolled backend x.config s.world in
      (
        elim r [
          | ok state ↦ success_response id (inspected state)
          | err rejected ↦ rejection_response rejected id
        ],
        record s { world = w },
      )

  -- `match request.action`
  handle_action :
      RuntimeExecutor → Faults → ℕ → RuntimeAction → HelperState W → RuntimeResponse × HelperState W
  unfolding handle_inspect
  handle_action x faults id (inspect _) s = handle_inspect x id s
  handle_action x faults id (restart_container t) s = restart backend x.config faults id t s

  unfoldable pub handle :
      RuntimeExecutor
      → Faults
      → ℕ
      → RuntimeRequest
      → HelperState W
      → RuntimeResponse × HelperState W
  unfolding handle_action
  handle x faults peer_uid request s =
      if not (request.protocol_version == protocol_version)
      then (
        rejection request.request_id protocol_version_unsupported not_started
            "unsupported protocol version",
        s,
      )
      else if not (peer_uid == x.config.allowed_peer_uid)
      then (
        rejection request.request_id peer_not_allowed not_started "Unix peer uid is not enrolled",
        s,
      )
      else if not (sha256 request.credential == x.credential_digest)
      then (
        rejection request.request_id authentication_failed not_started "helper credential rejected",
        s,
      )
      else if not (text_eq (target_id request.action) x.config.enrolled_target.id)
      then (
        rejection request.request_id target_not_enrolled not_started
            "target is not explicitly enrolled",
        s,
      )
      else handle_action x faults request.request_id request.action s
