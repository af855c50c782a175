-- ===== src/HelperClient.antt =====
-- crates/nopager-connectors/src/docker_ops.rs: `RuntimeHelperClient`, the worker's side of the host
-- helper. The socket is a parameter: `Wire` says how one exchange goes, and what is read is the length
-- and the decoding of the bytes. Durations are seconds, `encoded_len` is serde's length of a request.
pub mod Laws
mod Tests
use nopager.Prelude.{
  ℕ, ◌+◌, ◌-◌, ◌*◌, ◌^◌, min, max, Bool, true, false, not, ◌&&◌, ◌||◌, Option, none, some, List, [],
  ◌∷◌, Text, text, text_eq, byte_len, is_ascii_digit, is_ascii_hexdigit, all, ltb, leb, ◌==◌,
  if◌then◌else◌, Result, ok, err, ◌>>=◌, ◌>>◌, refuse_if,
}
use nopager.Protocol.{
  ContainerState, MutationDisposition, not_started, ambiguous, RuntimeErrorCode, RuntimeRequest,
  RuntimeResponse, RuntimeResult, success, rejected, inspected, restarted, inspect_request,
  restart_request, max_message_bytes, protocol_version,
}

pub data RuntimeHelperError : Type 0 where
  invalid_target invalid_socket_path credential_missing invalid_timeout helper_unavailable :
      RuntimeHelperError
  response_timeout : (mutation : MutationDisposition) → RuntimeHelperError
  response_lost : (mutation : MutationDisposition) → RuntimeHelperError
  refused : (code : RuntimeErrorCode) (mutation : MutationDisposition) → RuntimeHelperError
  invalid_response : (mutation : MutationDisposition) → RuntimeHelperError
  unexpected_response : (mutation : MutationDisposition) → RuntimeHelperError
  request_too_large unsupported_platform : RuntimeHelperError

unfoldable pub mutation_disposition : RuntimeHelperError → MutationDisposition
mutation_disposition (response_timeout m) = m
mutation_disposition (response_lost m) = m
mutation_disposition (invalid_response m) = m
mutation_disposition (unexpected_response m) = m
mutation_disposition (refused _ m) = m
mutation_disposition invalid_target = not_started
mutation_disposition invalid_socket_path = not_started
mutation_disposition credential_missing = not_started
mutation_disposition invalid_timeout = not_started
mutation_disposition helper_unavailable = not_started
mutation_disposition request_too_large = not_started
mutation_disposition unsupported_platform = not_started

pub record RuntimeHelperClient : Type 0 where
  pub socket_path : Text
  pub credential : Text
  pub timeout : ℕ

-- `Path::is_absolute` on Unix
abbrev is_absolute : Text → Bool
is_absolute [] = false
is_absolute (c ∷ _) = c == b'/'

unfoldable pub new_client : Text → Text → ℕ → Result RuntimeHelperError RuntimeHelperClient
new_client socket_path credential timeout = do
  refuse_if (not (is_absolute socket_path)) invalid_socket_path
  refuse_if (ltb (byte_len credential) 32) credential_missing
  refuse_if (timeout == 0 || ltb 60 timeout) invalid_timeout
  ok (record { socket_path = socket_path; credential = credential; timeout = timeout })

-- The digits of `str::parse::<u64>`: `none` on an overflow.
parse_digits : ℕ → Text → Option ℕ
parse_digits n [] = some n
parse_digits n (c ∷ s) =
    let m = n * 10 + (c - b'0') in
    let rest = parse_digits m s in if is_ascii_digit c && ltb m (2 ^ 64) then rest else none

unfoldable pub parse_u64 : Text → Option ℕ
unfolding parse_digits
parse_u64 [] = none
parse_u64 (c ∷ []) = parse_digits 0 (c ∷ [])
parse_u64 (c ∷ d ∷ s) = if c == b'+' then parse_digits 0 (d ∷ s) else parse_digits 0 (c ∷ d ∷ s)

abbrev default_helper_socket : Text
default_helper_socket = text "/run/nopager-runtime/runtime-helper.sock"

abbrev default_timeout_seconds : ℕ
default_timeout_seconds = 30

abbrev or_default {ℓ} : {A : Type ℓ} → Option A → A → A
or_default none d = d
or_default (some a) d = a

abbrev parse_or_none : Option Text → Option ℕ
unfolding parse_u64
parse_or_none none = none
parse_or_none (some t) = parse_u64 t

-- `.filter(|value| value.len() >= 32).ok_or(CredentialMissing)`
abbrev require_credential : Option Text → Result RuntimeHelperError Text
require_credential none = err credential_missing
require_credential (some t) = if leb 32 (byte_len t) then ok t else err credential_missing

-- `env` reads a variable of the process's environment.
unfoldable pub from_environment :
    (Text → Option Text) → Result RuntimeHelperError RuntimeHelperClient
unfolding new_client parse_u64
from_environment env = do
  let socket_path = or_default (env (text "NOPAGER_RUNTIME_HELPER_SOCKET")) default_helper_socket
  credential ← require_credential (env (text "NOPAGER_RUNTIME_HELPER_TOKEN"))
  let seconds =
      or_default (parse_or_none (env (text "NOPAGER_RUNTIME_HELPER_TIMEOUT_SECONDS")))
        default_timeout_seconds
  new_client socket_path credential (max 1 (min 60 seconds))

-- How the socket behaves in one exchange.
pub data Wire : Type 0 where
  cannot_connect : Wire
  write_fails shutdown_fails read_times_out read_fails : Wire
  answered : (len : ℕ) (decoded : Option RuntimeResponse) → Wire

-- What follows the reading of the response.
accept_response :
    RuntimeRequest
    → MutationDisposition
    → ℕ
    → Option RuntimeResponse
    → Result RuntimeHelperError RuntimeResponse
accept_response request sent len none = err (invalid_response sent)
accept_response request sent len (some response) =
    if ltb max_message_bytes len
    then err (invalid_response sent)
    else if not (response.protocol_version == protocol_version)
        || not (response.request_id == request.request_id)
    then err (invalid_response sent)
    else ok response

on_wire : RuntimeRequest → MutationDisposition → Wire → Result RuntimeHelperError RuntimeResponse
unfolding accept_response
on_wire request sent cannot_connect = err helper_unavailable
on_wire request sent write_fails = err (response_lost sent)
on_wire request sent shutdown_fails = err (response_lost sent)
on_wire request sent read_times_out = err (response_timeout sent)
on_wire request sent read_fails = err (response_lost sent)
on_wire request sent (answered len decoded) = accept_response request sent len decoded

unfoldable pub exchange :
    (RuntimeRequest → ℕ) → Wire → RuntimeRequest → Bool → Result RuntimeHelperError RuntimeResponse
unfolding on_wire
exchange encoded_len wire request mutating =
    if ltb max_message_bytes (encoded_len request + 1)
    then err request_too_large
    else on_wire request (if mutating then ambiguous else not_started) wire

unfoldable pub validate_target_id : Text → Result RuntimeHelperError (Unit {0})
validate_target_id value =
    if byte_len value == 64 && all is_ascii_hexdigit value then ok tt else err invalid_target

pub record DockerRestartResult : Type 0 where
  pub before : ContainerState
  pub after : ContainerState
  pub duplicate : Bool

-- `match response.result` of `inspect_container`
inspection_of : RuntimeResult → Result RuntimeHelperError ContainerState
inspection_of (success (inspected state)) = ok state
inspection_of (rejected code mutation _) = err (refused code mutation)
inspection_of (success _) = err (unexpected_response not_started)

-- `match response.result` of `restart_container`
restart_of : Bool → RuntimeResult → Result RuntimeHelperError DockerRestartResult
restart_of duplicate (success (restarted before after)) =
    ok (record { before = before; after = after; duplicate = duplicate })
restart_of duplicate (rejected code mutation _) = err (refused code mutation)
restart_of duplicate (success _) = err (unexpected_response ambiguous)

module _ (encoded_len : RuntimeRequest → ℕ) (wire : Wire) (client : RuntimeHelperClient) where
  unfoldable pub inspect_container : ℕ → Text → Result RuntimeHelperError ContainerState
  unfolding exchange validate_target_id inspection_of
  inspect_container request_id target = do
    validate_target_id target
    response ← exchange encoded_len wire (inspect_request request_id client.credential target) false
    inspection_of response.result

  unfoldable pub restart_container : ℕ → Text → Result RuntimeHelperError DockerRestartResult
  unfolding exchange validate_target_id restart_of
  restart_container request_id target = do
    validate_target_id target
    response ← exchange encoded_len wire (restart_request request_id client.credential target) true
    restart_of response.duplicate response.result
