-- ===== src/HelperClient/Tests.antt =====
-- Witnesses for the client's laws (crates/nopager-connectors/src/docker_ops.rs).
use nopager.Prelude.{
  ℕ, ◌≤◌, false, ◌≡◌, refl, ◌==◌, if◌then◌else◌, Option, none, some, Text, text, byte_len, length,
}
use nopager.Protocol.{
  ContainerState, RuntimeRequest, RuntimeResponse, success, restarted, max_message_bytes,
  success_response, rejection, target_replaced, not_started,
}
use nopager.HelperClient.{
  RuntimeHelperClient, refused, mutation_disposition, Wire, answered, restart_container,
}
use nopager.HelperClient.Laws.{NothingStarted, restart_container-not_started, restart_container-ok}

abbrev target : Text
target = text "aaaaaaaaaaaaaaaaaaaaaaaaaaaaaaaaaaaaaaaaaaaaaaaaaaaaaaaaaaaaaaaa"

abbrev app : ContainerState
app = record {
  id = target;
  name = text "app";
  status = text "running";
  compose_project = none;
  compose_service = none;
  nopager_control_plane = false;
}

abbrev client : RuntimeHelperClient
client = record { socket_path = text "/run/s"; credential = text "c"; timeout = 30 }

abbrev size : RuntimeRequest → ℕ
size r = length r.credential

abbrev refusal : Wire
refusal = answered 90 (some (rejection 5 target_replaced not_started "gone"))

restart_container-not_started_example : NothingStarted size refusal client 5 target
unfolding restart_container mutation_disposition byte_len
restart_container-not_started_example =
    restart_container-not_started size refusal client 5 target
      {e = refused target_replaced not_started} refl refl

abbrev reply : RuntimeResponse
reply = success_response 5 (restarted app app)

restart_container-ok_example :
    (len : ℕ) × (a : RuntimeResponse) × (answered 300 (some reply) ≡ answered len (some a))
    × (len ≤ max_message_bytes)
    × (a.request_id ≡ 5)
    × (a.duplicate ≡ false)
    × (a.result ≡ success (restarted app app))
unfolding restart_container mutation_disposition byte_len
restart_container-ok_example =
    restart_container-ok size (answered 300 (some reply)) client 5 target
      {r = record { before = app; after = app; duplicate = false }} refl

-- Only the credential is set.
abbrev token_of : ℕ → Option Text
token_of n = if n == 28 then some (text "0123456789abcdef0123456789abcdef") else none

abbrev env : Text → Option Text
env name = token_of (length name)

abbrev made : RuntimeHelperClient
made = record {
  socket_path = text "/run/nopager-runtime/runtime-helper.sock";
  credential = text "0123456789abcdef0123456789abcdef";
  timeout = 30;
}
