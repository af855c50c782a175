-- ===== src/Helper/Executor/Restart.antt =====
-- apps/runtime-helper/src/lib.rs: `RuntimeExecutor::restart`, in the stages of its early returns.
pub mod Laws
use nopager.Prelude.{
  ℕ, Bool, true, false, not, List, [], ◌∷◌, Text, if◌then◌else◌, Result, ok, err, is_ok,
}
use nopager.Protocol.{
  ContainerState, RuntimeResponse, success_response, rejection, restarted, not_started, ambiguous,
  duplicate_ambiguous, internal_error, restart_ambiguous, restart_did_not_start, running,
}
use nopager.Helper.Config.{HelperConfig}
use nopager.Helper.Backend.{RuntimeBackend, BackendError}
use nopager.Helper.Journal.{
  Journal, ClaimResult, ClaimFault, CompleteFault, IoError, claim, complete,
}
use nopager.Helper.Executor.Inspection.{Rejection, inspect_enrolled, rejection_response}

-- How the journal's input and output go while one request is handled.
pub record Faults : Type 0 where
  pub on_claim : ClaimFault
  pub on_complete : CompleteFault

pub record HelperState (W : Type 0) : Type 0 where
  pub journal : Journal
  pub world : W
  pub restarts : List (ℕ × Text)

module _ {W : Type 0} (backend : RuntimeBackend W) (c : HelperConfig) (faults : Faults) where
  -- from `let response = RuntimeResponse::success(…)`
  report :
      ℕ → Text → ContainerState → ContainerState → HelperState W → RuntimeResponse × HelperState W
  report id t before after s =
      let response = success_response id (restarted before after) in
      let (done, j) = complete faults.on_complete id t response s.journal in
      (
        if is_ok done
            then response
            else rejection id internal_error ambiguous
                "restart completed but helper could not persist the result",
        record s { journal = j },
      )

  -- `let after = match self.inspect_enrolled().await`
  after_second_inspection :
      ℕ
      → Text
      → ContainerState
      → Result Rejection ContainerState
      → HelperState W
      → RuntimeResponse × HelperState W
  unfolding report
  after_second_inspection id t before (err _) s =
      (rejection id restart_ambiguous ambiguous "target state could not be proven after restart", s)
  after_second_inspection id t before (ok after) s =
      if not (running after)
      then (
        rejection id restart_did_not_start ambiguous
            "restart returned but the enrolled target is not running",
        s,
      )
      else report id t before after s

  -- the test of `restart_exact(…).await.is_err()`
  after_restart :
      ℕ
      → Text
      → ContainerState
      → Result BackendError (Unit {0})
      → HelperState W
      → RuntimeResponse × HelperState W
  unfolding after_second_inspection
  after_restart id t before (err _) s = (
    rejection id restart_ambiguous ambiguous
        "Docker restart outcome is ambiguous; this request will never be replayed",
    s,
  )
  after_restart id t before (ok _) s =
      let (second, w) = inspect_enrolled backend c s.world in
      after_second_inspection id t before second (record s { world = w })

  -- `let before = match self.inspect_enrolled().await`
  after_first_inspection :
      ℕ → Text → Result Rejection ContainerState → HelperState W → RuntimeResponse × HelperState W
  unfolding after_restart
  after_first_inspection id t (err rejected) s =
      let response = rejection_response rejected id in
      let (_, j) = complete faults.on_complete id t response s.journal in
      (response, record s { journal = j })
  after_first_inspection id t (ok before) s =
      let (r, w) = backend.restart_exact t s.world in
      after_restart id t before r (record s { world = w; restarts = (id, t) ∷ s.restarts })

  -- `match self.journal.claim(request_id, target_id)`
  after_claim :
      ℕ → Text → Result IoError ClaimResult → HelperState W → RuntimeResponse × HelperState W
  unfolding after_first_inspection
  after_claim id t (ok (ClaimResult.completed response)) s =
      (record response { duplicate = true }, s)
  after_claim id t (ok ClaimResult.started) s = (
    rejection id duplicate_ambiguous ambiguous
        "request was previously claimed without a durable completion record",
    s,
  )
  after_claim id t (ok ClaimResult.new) s =
      let (first, w) = inspect_enrolled backend c s.world in
      after_first_inspection id t first (record s { world = w })
  after_claim id t (err _) s =
      (rejection id internal_error not_started "helper could not durably claim the mutation", s)

  unfoldable pub restart : ℕ → Text → HelperState W → RuntimeResponse × HelperState W
  unfolding after_claim
  restart id t s =
      let (claimed, j) = claim faults.on_claim id t s.journal in
      after_claim id t claimed (record s { journal = j })
