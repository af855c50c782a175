-- ===== src/Helper/Executor/Once.antt =====
-- At most one restart for each request id, and only of what is enrolled, whatever requests arrive:
-- `RuntimeExecutor::handle` of apps/runtime-helper/src/lib.rs.
use Prim.Native.String.{String}
use nopager.Prelude.{
  ℕ, suc, ◌≤◌, Bool, true, false, ◌≡◌, ◌≢◌, ◌⊎◌, inl, inr, arith, List, [], ◌∷◌, Text, text_eq_iff,
  text_eq_refl, ◌∙◌, ◌==◌, if◌then◌else◌, ok, some,
}
use nopager.Protocol.{
  RuntimeRequest, ContainerState, RuntimeErrorCode, restart_container, target_id, protocol_version,
  not_started, rejected, RuntimeResult, success, restarted,
}
use nopager.Helper.Backend.{RuntimeBackend}
use nopager.Helper.Journal.{file_at, readable, complete_record, cannot_open}
use nopager.Helper.Journal.Laws.{claimed, claim-new}
use nopager.Helper.Executor.{RuntimeExecutor, handle}
use nopager.Helper.Executor.Inspection.{inspect_enrolled}
use nopager.Helper.Executor.Inspection.Laws.{IsEnrolled, inspect_enrolled-IsEnrolled}
use nopager.Helper.Executor.Restart.{Faults, HelperState, restart}
use nopager.Helper.Executor.Restart.Laws.{
  restart-keeps_claims, restart_logs, restart-claims, restart-not_started, restart-succeeds,
  restart-inspects, restart-records, restart-replays,
}

-- One request as it arrives: who sends it, and how the journal's input and output will go.
pub record Delivery : Type 0 where
  pub peer_uid : ℕ
  pub request : RuntimeRequest
  pub faults : Faults

-- How often a request id stands in the log of restarts.
abbrev pub restarts_of : ℕ → List (ℕ × Text) → ℕ
restarts_of k [] = 0
restarts_of k ((id, t) ∷ log) = let rest = restarts_of k log in if id == k then suc rest else rest

abbrev reports_restart : RuntimeResult → Bool
reports_restart (success (restarted _ _)) = true
reports_restart _ = false

-- The start: an empty journal.
abbrev pub fresh : {W : Type 0} → W → HelperState W
fresh w = record { journal = []; world = w; restarts = [] }

-- No request id is logged more than once, and a logged one has a file.
abbrev IsOnce : {W : Type 0} → HelperState W → ℕ → Type 0
IsOnce s k = restarts_of k s.restarts ≤ (if claimed k s.journal then 1 else 0)

module _ {W : Type 0} (b : RuntimeBackend W) (sha256 : Text → ℕ) (x : RuntimeExecutor) where
  unfoldable pub handle_all : List Delivery → HelperState W → HelperState W
  handle_all [] s = s
  handle_all (d ∷ ds) s = handle_all ds (handle b sha256 x d.faults d.peer_uid d.request s).1

  restart-IsOnce :
      (f : Faults) (id : ℕ) (t : Text) (s : HelperState W) (k : ℕ)
      → IsOnce s k
      → IsOnce (restart b x.config f id t s).1 k
  restart-IsOnce f id t s k h = ground (
    arith,
    restart_logs b x.config f id t s,
    restart-keeps_claims b x.config f k id t s,
    restart-claims b x.config f id t s,
    claim-new f.on_claim id t s.journal,
  )

  -- What a request must bring for a restart.
  pub record IsAuthorised (peer : ℕ) (r : RuntimeRequest) : Type 0 where
    pub version : r.protocol_version ≡ protocol_version
    pub peer_uid : peer ≡ x.config.allowed_peer_uid
    pub credential : sha256 r.credential ≡ x.credential_digest
    pub action : r.action ≡ restart_container x.config.enrolled_target.id

  -- A request that is not an authorised restart touches neither the journal nor the log.
  handle_cases :
      (f : Faults) (peer : ℕ) (r : RuntimeRequest) (s : HelperState W)
      → (((handle b sha256 x f peer r s).1.journal ≡ s.journal)
          × ((handle b sha256 x f peer r s).1.restarts ≡ s.restarts)
          × (reports_restart (handle b sha256 x f peer r s).0.result ≡ false))
        ⊎ (IsAuthorised peer r
            × (handle b sha256 x f peer r s
                ≡ restart b x.config f r.request_id x.config.enrolled_target.id s))
  unfolding handle
  handle_cases f peer r s =
      ground (arith, text_eq_iff (target_id r.action) x.config.enrolled_target.id)

  handle_authorised :
      (f : Faults) (peer : ℕ) (r : RuntimeRequest) (s : HelperState W)
      → IsAuthorised peer r
      → handle b sha256 x f peer r s
        ≡ restart b x.config f r.request_id x.config.enrolled_target.id s
  unfolding handle
  handle_authorised f peer r s a = ground (arith, text_eq_refl x.config.enrolled_target.id)

  handle-IsOnce :
      (f : Faults) (peer : ℕ) (r : RuntimeRequest) (s : HelperState W) (k : ℕ)
      → IsOnce s k
      → IsOnce (handle b sha256 x f peer r s).1 k
  handle-IsOnce f peer r s k h = elim (handle_cases f peer r s) [
    | inl (same_journal, same_log, _) ↦ rw (same_journal, same_log) h
    | inr (_, e) ↦ rw e (restart-IsOnce f r.request_id x.config.enrolled_target.id s k h)
  ]

  handle_all-IsOnce :
      (ds : List Delivery) (s : HelperState W) (k : ℕ) → IsOnce s k → IsOnce (handle_all ds s) k
  unfolding handle_all
  handle_all-IsOnce [] s k h = h
  handle_all-IsOnce (d ∷ ds) s k h =
      handle_all-IsOnce ds (handle b sha256 x d.faults d.peer_uid d.request s).1 k
        (handle-IsOnce d.faults d.peer_uid d.request s k h)

  -- Starting from an empty journal, whatever requests arrive, from whomever, whatever Docker answers
  -- and wherever the journal's input and output fail, the helper asks Docker for at most one restart
  -- for each request id.
  pub restart_at_most_once :
      (ds : List Delivery) (w : W) (k : ℕ) → restarts_of k (handle_all ds (fresh w)).restarts ≤ 1
  unfolding file_at
  restart_at_most_once ds w k = ground (arith, handle_all-IsOnce ds (fresh w) k (omega arith))

  -- A request makes the helper restart something only if its protocol version is the helper's, its
  -- peer is the allowed one, its credential hashes to the stored digest, it asks for a restart of the
  -- enrolled target, and no file stands for its id; the restart is of that target, and an inspection
  -- just before has seen the enrolled container, which is no part of the control plane.
  pub restart_authority :
      (f : Faults) (peer : ℕ) (r : RuntimeRequest) (s : HelperState W)
      → (handle b sha256 x f peer r s).1.restarts ≢ s.restarts
      → IsAuthorised peer r
        × ((handle b sha256 x f peer r s).1.restarts
            ≡ (r.request_id, x.config.enrolled_target.id) ∷ s.restarts)
        × (claimed r.request_id s.journal ≡ false)
        × ((seen : ContainerState) × ((inspect_enrolled b x.config s.world).0 ≡ ok seen)
            × IsEnrolled x.config seen)
  restart_authority f peer r s h = elim (handle_cases f peer r s) [
    | inl (_, same, _) ↦ absurd (h same)
    | inr (granted, e) ↦
        let t = x.config.enrolled_target.id in
        let changed = (rw e at h) in
        let (seen, found) = restart-inspects b x.config f r.request_id t s changed in
        (
          granted,
          rw e (ground (arith, restart_logs b x.config f r.request_id t s)),
          ground (
            arith,
            restart_logs b x.config f r.request_id t s,
            claim-new f.on_claim r.request_id t s.journal,
          ),
          (seen, found, inspect_enrolled-IsEnrolled b x.config s.world found),
        )
  ]

  -- Where a fresh answer says that no mutation was started, handling the request has made no restart.
  pub not_started_is_true :
      (f : Faults) (peer : ℕ) (r : RuntimeRequest) (s : HelperState W) {code : RuntimeErrorCode}
      {m : String}
      → (handle b sha256 x f peer r s).0.duplicate ≡ false
      → (handle b sha256 x f peer r s).0.result ≡ rejected code not_started m
      → (handle b sha256 x f peer r s).1.restarts ≡ s.restarts
  not_started_is_true f peer r s d h = elim (handle_cases f peer r s) [
    | inl (_, same, _) ↦ same
    | inr (_, e) ↦ rw e (
        restart-not_started b x.config f r.request_id x.config.enrolled_target.id s (rw e at d)
          (rw e at h))
  ]

  -- Where a fresh answer reports a restart, handling the request has made exactly one, of the enrolled
  -- target for this request id, and the journal holds that answer as completed.
  pub success_is_one_restart :
      (f : Faults) (peer : ℕ) (r : RuntimeRequest) (s : HelperState W)
      {before after : ContainerState}
      → (handle b sha256 x f peer r s).0.duplicate ≡ false
      → (handle b sha256 x f peer r s).0.result ≡ success (restarted before after)
      → ((handle b sha256 x f peer r s).1.restarts
          ≡ (r.request_id, x.config.enrolled_target.id) ∷ s.restarts)
        × (file_at r.request_id (handle b sha256 x f peer r s).1.journal
            ≡ some (
                readable (
                  complete_record r.request_id x.config.enrolled_target.id
                    (handle b sha256 x f peer r s).0)))
  success_is_one_restart f peer r s d h = elim (handle_cases f peer r s) [
    | inl (_, _, no_report) ↦ ground arith
    | inr (_, e) ↦
        let t = x.config.enrolled_target.id in
        rw e (
          restart-succeeds b x.config f r.request_id t s (rw e at d) (rw e at h),
          restart-records b x.config f r.request_id t s (rw e at d) (rw e at h),
        )
  ]

  -- A request that asks for a restart once more, after a fresh answer that reported one, is answered
  -- with that answer, marked as a duplicate, if the journal can be read, and nothing changes.
  pub repeat_is_answered_from_journal :
      (f g : Faults) (peer : ℕ) (r : RuntimeRequest) (s : HelperState W)
      {before after : ContainerState}
      → (handle b sha256 x f peer r s).0.duplicate ≡ false
      → (handle b sha256 x f peer r s).0.result ≡ success (restarted before after)
      → g.on_claim ≢ cannot_open
      → handle b sha256 x g peer r (handle b sha256 x f peer r s).1 ≡ (
        record (handle b sha256 x f peer r s).0 { duplicate = true },
        (handle b sha256 x f peer r s).1,
      )
  repeat_is_answered_from_journal f g peer r s d h readable_file =
      let (_, stored) = success_is_one_restart f peer r s d h in
      elim (handle_cases f peer r s) [
        | inl (_, _, no_report) ↦ absurd (ground arith)
        | inr (granted, _) ↦
            handle_authorised g peer r (handle b sha256 x f peer r s).1 granted
            ∙ restart-replays b x.config g r.request_id x.config.enrolled_target.id
                (handle b sha256 x f peer r s).1 (handle b sha256 x f peer r s).0 stored
                readable_file
      ]
