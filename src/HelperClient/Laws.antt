-- ===== src/HelperClient/Laws.antt =====
-- What the client's errors say about the mutation: crates/nopager-connectors/src/docker_ops.rs.
use Prim.Native.String.{String}
use nopager.Prelude.{
  ℕ, ◌≤◌, ◌<◌, refl, Bool, true, false, ◌≡◌, ◌≢◌, ◌⊎◌, inl, inr, arith, Option, some, Text,
  byte_len, ok, err,
}
use nopager.Protocol.{
  RuntimeRequest, RuntimeResponse, RuntimeErrorCode, RuntimeResult, not_started, completed,
  ambiguous, rejected, success, restarted, restart_request, max_message_bytes, protocol_version,
}
use nopager.HelperClient.{
  RuntimeHelperClient, RuntimeHelperError, mutation_disposition, Wire, cannot_connect, answered,
  DockerRestartResult, restart_container, validate_target_id, from_environment,
}

-- The error of an answered restart says "not started" only where the answer is such a refusal.
abbrev is_refusal : RuntimeResult → Bool
is_refusal (rejected _ not_started _) = true
is_refusal _ = false

refusal-cases :
    (r : RuntimeResult)
    → ((code : RuntimeErrorCode) × (m : String) × (r ≡ rejected code not_started m))
      ⊎ (is_refusal r ≡ false)
refusal-cases (rejected code not_started m) = inl (code, m, refl)
refusal-cases (rejected code completed m) = inr refl
refusal-cases (rejected code ambiguous m) = inr refl
refusal-cases (success x) = inr refl

-- Why no mutation can have been started: the request was not sent, or the helper says so in a
-- response to this very request.
pub data NothingStarted (encoded_len : RuntimeRequest → ℕ) (wire : Wire)
    (client : RuntimeHelperClient) (id : ℕ) (t : Text) : Type 0 where
  bad_target : validate_target_id t ≢ ok tt → NothingStarted encoded_len wire client id t
  too_large :
      max_message_bytes ≤ encoded_len (restart_request id client.credential t)
      → NothingStarted encoded_len wire client id t
  not_connected : wire ≡ cannot_connect → NothingStarted encoded_len wire client id t
  said_so :
      (len : ℕ) (r : RuntimeResponse) (code : RuntimeErrorCode) (m : String)
      → wire ≡ answered len (some r)
      → r.request_id ≡ id
      → r.protocol_version ≡ protocol_version
      → r.result ≡ rejected code not_started m
      → NothingStarted encoded_len wire client id t

sent_or_not :
    (encoded_len : RuntimeRequest → ℕ) (client : RuntimeHelperClient) (id : ℕ) (t : Text)
    → ((validate_target_id t ≢ ok tt)
        ⊎ (max_message_bytes ≤ encoded_len (restart_request id client.credential t)))
      ⊎ ((validate_target_id t ≡ ok tt)
          × (encoded_len (restart_request id client.credential t) < max_message_bytes))
unfolding validate_target_id
sent_or_not encoded_len client id t = ground arith

why_not_started :
    (encoded_len : RuntimeRequest → ℕ) (wire : Wire) (client : RuntimeHelperClient) (id : ℕ)
    (t : Text) {e : RuntimeHelperError}
    → validate_target_id t ≡ ok tt
    → encoded_len (restart_request id client.credential t) < max_message_bytes
    → restart_container encoded_len wire client id t ≡ err e
    → mutation_disposition e ≡ not_started
    → NothingStarted encoded_len wire client id t
unfolding restart_container mutation_disposition
why_not_started encoded_len cannot_connect client id t good small h d = not_connected refl
why_not_started encoded_len (answered len (some r)) client id t good small h d =
    elim (refusal-cases r.result) [
      | inl (code, m, e) ↦ said_so len r code m refl (ground arith) (ground arith) e
      | inr other ↦ absurd (ground arith)
    ]
why_not_started encoded_len _ client id t good small h d = absurd (ground arith)

-- A restart whose error says that no mutation was started was either not sent at all (a bad target,
-- too large a request, no connection), or the helper answered this request, in this protocol
-- version, that it had started none. A lost, late, broken or unexpected answer never says so.
pub restart_container-not_started :
    (encoded_len : RuntimeRequest → ℕ) (wire : Wire) (client : RuntimeHelperClient) (id : ℕ)
    (t : Text) {e : RuntimeHelperError}
    → restart_container encoded_len wire client id t ≡ err e
    → mutation_disposition e ≡ not_started
    → NothingStarted encoded_len wire client id t
unfolding restart_container mutation_disposition
restart_container-not_started encoded_len wire client id t h d =
    elim (sent_or_not encoded_len client id t) [
      | inl (inl bad) ↦ bad_target bad
      | inl (inr large) ↦ too_large large
      | inr (good, small) ↦ why_not_started encoded_len wire client id t good small h d
    ]

-- A restart is reported only where the helper's answer to this request reports it.
pub restart_container-ok :
    (encoded_len : RuntimeRequest → ℕ) (wire : Wire) (client : RuntimeHelperClient) (id : ℕ)
    (t : Text) {r : DockerRestartResult}
    → restart_container encoded_len wire client id t ≡ ok r
    → (len : ℕ) × (a : RuntimeResponse) × (wire ≡ answered len (some a))
      × (len ≤ max_message_bytes)
      × (a.request_id ≡ id)
      × (a.duplicate ≡ r.duplicate)
      × (a.result ≡ success (restarted r.before r.after))
unfolding restart_container
restart_container-ok encoded_len (answered len (some a)) client id t h =
    (len, a, refl, ground arith, ground arith, ground arith, ground arith)
restart_container-ok encoded_len _ client id t h = absurd (ground arith)

-- A client made from the environment has a credential of at least 32 bytes and a timeout between one
-- second and a minute, whatever the environment holds.
pub from_environment_bounds :
    (env : Text → Option Text) {c : RuntimeHelperClient}
    → from_environment env ≡ ok c
    → (32 ≤ byte_len c.credential) × (1 ≤ c.timeout) × (c.timeout ≤ 60)
unfolding from_environment
from_environment_bounds env h = ground arith
