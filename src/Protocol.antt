-- ===== src/Protocol.antt =====
-- crates/nopager-runtime-protocol/src/lib.rs: the messages between the worker and the host helper.
-- A `Uuid` is a number; what the program walks is a `Text`, messages for people are `String`s.
use Prim.Native.String.{String}
use nopager.Prelude.{ℕ, Bool, true, false, Option, Text, text, text_eq}

abbrev pub protocol_version : ℕ
protocol_version = 1

abbrev pub max_message_bytes : ℕ
max_message_bytes = 16384

pub data RuntimeAction : Type 0 where
  inspect : (target_id : Text) → RuntimeAction
  restart_container : (target_id : Text) → RuntimeAction

abbrev pub mutating : RuntimeAction → Bool
mutating (restart_container _) = true
mutating (inspect _) = false

abbrev pub target_id : RuntimeAction → Text
target_id (inspect t) = t
target_id (restart_container t) = t

pub record RuntimeRequest : Type 0 where
  pub protocol_version : ℕ  -- u16
  pub request_id : ℕ  -- Uuid
  pub credential : Text
  pub action : RuntimeAction

abbrev pub inspect_request : ℕ → Text → Text → RuntimeRequest
inspect_request id secret t = record {
  protocol_version = protocol_version;
  request_id = id;
  credential = secret;
  action = inspect t;
}

abbrev pub restart_request : ℕ → Text → Text → RuntimeRequest
restart_request id secret t = record {
  protocol_version = protocol_version;
  request_id = id;
  credential = secret;
  action = restart_container t;
}

pub record ContainerState : Type 0 where
  pub id : Text
  pub name : Text
  pub status : Text
  pub compose_project : Option Text
  pub compose_service : Option Text
  pub nopager_control_plane : Bool

unfoldable pub running : ContainerState → Bool
running s = text_eq s.status (text "running")

pub data MutationDisposition : Type 0 where
  not_started completed ambiguous : MutationDisposition

pub data RuntimeErrorCode : Type 0 where
  authentication_failed peer_not_allowed protocol_version_unsupported invalid_request
        target_not_enrolled target_disappeared target_replaced control_plane_target
        same_control_plane_project docker_daemon_unavailable restart_ambiguous restart_did_not_start
        duplicate_ambiguous internal_error :
      RuntimeErrorCode

pub data RuntimeSuccess : Type 0 where
  inspected : (state : ContainerState) → RuntimeSuccess
  restarted : (before after : ContainerState) → RuntimeSuccess

pub data RuntimeResult : Type 0 where
  success : RuntimeSuccess → RuntimeResult
  rejected :
      (code : RuntimeErrorCode) (mutation : MutationDisposition) (message : String) → RuntimeResult

pub record RuntimeResponse : Type 0 where
  pub protocol_version : ℕ  -- u16
  pub request_id : ℕ  -- Uuid
  pub duplicate : Bool
  pub result : RuntimeResult

abbrev pub success_response : ℕ → RuntimeSuccess → RuntimeResponse
success_response id s = record {
  protocol_version = protocol_version;
  request_id = id;
  duplicate = false;
  result = success s;
}

abbrev pub rejection : ℕ → RuntimeErrorCode → MutationDisposition → String → RuntimeResponse
rejection id code mutation message = record {
  protocol_version = protocol_version;
  request_id = id;
  duplicate = false;
  result = rejected code mutation message;
}
