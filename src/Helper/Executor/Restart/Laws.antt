-- ===== src/Helper/Executor/Restart/Laws.antt =====
-- What one call of `RuntimeExecutor::restart` (apps/runtime-helper/src/lib.rs) does to the journal and
-- to the log of restarts, and what its answer says about it.
use nopager.Prelude.{ℕ, true, false, ◌≡◌, ◌≢◌, ◌⊎◌, arith, ◌∷◌, Text, ok, some, text_eq_refl}
use nopager.Protocol.{
  RuntimeResponse, RuntimeErrorCode, ContainerState, not_started, rejected, success, restarted,
}
use nopager.Helper.Config.{HelperConfig}
use nopager.Helper.Backend.{RuntimeBackend}
use nopager.Helper.Journal.{
  ClaimResult, claim, complete, complete_record, file_at, readable, cannot_open,
}
use nopager.Helper.Journal.Laws.{
  claimed, claimed-claim, claimed-complete, claim-new, file_at-put_file,
}
use nopager.Helper.Executor.Inspection.{inspect_enrolled}
use nopager.Helper.Executor.Restart.{Faults, HelperState, restart}

module _ {W : Type 0} (b : RuntimeBackend W) (c : HelperConfig) (x : Faults) where
  pub restart-keeps_claims :
      (k id : ℕ) (t : Text) (s : HelperState W)
      → claimed k s.journal ≡ true
      → claimed k (restart b c x id t s).1.journal ≡ true
  unfolding restart
  restart-keeps_claims k id t s h = grind (arith, claimed-claim, claimed-complete)

  pub restart_logs :
      (id : ℕ) (t : Text) (s : HelperState W)
      → ((restart b c x id t s).1.restarts ≡ s.restarts)
        ⊎ (((restart b c x id t s).1.restarts ≡ (id, t) ∷ s.restarts)
            × ((claim x.on_claim id t s.journal).0 ≡ ok ClaimResult.new))
  unfolding restart
  restart_logs id t s = ground arith

  pub restart-claims :
      (id : ℕ) (t : Text) (s : HelperState W)
      → (claim x.on_claim id t s.journal).0 ≡ ok ClaimResult.new
      → claimed id (restart b c x id t s).1.journal ≡ true
  unfolding restart
  restart-claims id t s h = grind (arith, claim-new, claimed-complete)

  pub restart-not_started :
      (id : ℕ) (t : Text) (s : HelperState W) {code : RuntimeErrorCode}
      {m : Prim.Native.String.String}
      → (restart b c x id t s).0.duplicate ≡ false
      → (restart b c x id t s).0.result ≡ rejected code not_started m
      → (restart b c x id t s).1.restarts ≡ s.restarts
  unfolding restart
  restart-not_started id t s d h = ground arith

  pub restart-succeeds :
      (id : ℕ) (t : Text) (s : HelperState W) {before after : ContainerState}
      → (restart b c x id t s).0.duplicate ≡ false
      → (restart b c x id t s).0.result ≡ success (restarted before after)
      → (restart b c x id t s).1.restarts ≡ (id, t) ∷ s.restarts
  unfolding restart
  restart-succeeds id t s d h = ground arith

  pub restart-inspects :
      (id : ℕ) (t : Text) (s : HelperState W)
      → (restart b c x id t s).1.restarts ≢ s.restarts
      → (seen : ContainerState) × ((inspect_enrolled b c s.world).0 ≡ ok seen)
  unfolding restart
  restart-inspects id t s h = ground arith

  -- A success is on the disk when it is answered.
  pub restart-records :
      (id : ℕ) (t : Text) (s : HelperState W) {before after : ContainerState}
      → (restart b c x id t s).0.duplicate ≡ false
      → (restart b c x id t s).0.result ≡ success (restarted before after)
      → file_at id (restart b c x id t s).1.journal
        ≡ some (readable (complete_record id t (restart b c x id t s).0))
  unfolding restart complete
  restart-records id t s d h = grind (arith, file_at-put_file)

  pub restart-replays :
      (id : ℕ) (t : Text) (s : HelperState W) (r : RuntimeResponse)
      → file_at id s.journal ≡ some (readable (complete_record id t r))
      → x.on_claim ≢ cannot_open
      → restart b c x id t s ≡ (record r { duplicate = true }, s)
  unfolding restart claim complete_record
  restart-replays id t s r e h = ground (arith, text_eq_refl t)
