-- ===== src/Production/Dispatch/Chains.antt =====
-- Production jobs come to an end: apps/worker/src/main.rs and source_recovery.rs.
use nopager.Prelude.{ℕ, ◌≤◌, suc, ◌≡◌, arith, some, List, ◌∷◌}
use mathlib.Core.List.{Memᴰ}
use mathlib.Core.List.Memᴰ.{head, tail}
use nopager.Production.Site.{Site, Run}
use nopager.Production.Revert.{verify_source_revert_review}
use nopager.Production.Rollback.{process_rollback_action, verify_rolled_back_production}
use nopager.Production.Promotion.{
  process_production_action, verify_promoted_production, watch_promoted_production,
}
use nopager.Production.Durable.{
  persist_verified_repair, verify_durable_production, watch_durable_production, check_durable,
}
use nopager.Production.Recovery.{
  verify_source_recovery_production, watch_source_recovery_production,
}
use nopager.Production.Dispatch.{ProductionHandler, handle_production, route}
use nopager.Production.Dispatch.Measure.{
  HasAdded, none_added, one_added, IsBelow, steps_left, added_none,
}
use nopager.Production.Dispatch.Termination.{
  IsShorter, pause-IsShorter, review-IsShorter, rolled_back_action-IsShorter,
  promoted_production-IsShorter, begin_rollback-IsShorter, watched-IsShorter,
  begin_durable_rollback-IsShorter, durable_watched-IsShorter, land_repair-IsShorter,
  rollback_action-IsShorter, promote_action-IsShorter, recovery_production-IsShorter,
  recovery_watch-IsShorter, start_durable_watch-IsShorter,
}
use nopager.Store.Schema.{Payload, JobRow}

module _ (run : Run) (payload : Payload) (s : Site) where
  rollback-IsShorter : IsShorter 4000 s (process_rollback_action run payload s)
  unfolding process_rollback_action
  rollback-IsShorter = grind (arith, added_none, pause-IsShorter, rollback_action-IsShorter)

  production_action-IsShorter : IsShorter 10000 s (process_production_action run payload s)
  unfolding process_production_action
  production_action-IsShorter = grind (arith, added_none, pause-IsShorter, promote_action-IsShorter)

  landing-IsShorter :
      IsShorter
        (steps_left ProductionHandler.land_repair payload)
        s
        (persist_verified_repair run payload s)
  unfolding persist_verified_repair
  landing-IsShorter = grind (arith, added_none, pause-IsShorter, land_repair-IsShorter)

  promotion-IsShorter :
      IsShorter
        (steps_left ProductionHandler.promoted_production payload)
        s
        (verify_promoted_production run payload s)
  unfolding verify_promoted_production
  promotion-IsShorter = grind (arith, added_none, promoted_production-IsShorter)

  rolled_back-IsShorter :
      IsShorter
        (steps_left ProductionHandler.rolled_back_production payload)
        s
        (verify_rolled_back_production run payload s)
  unfolding verify_rolled_back_production
  rolled_back-IsShorter = grind (arith, added_none, rolled_back_action-IsShorter)

  revert_review-IsShorter :
      IsShorter
        (steps_left ProductionHandler.source_revert_review payload)
        s
        (verify_source_revert_review run payload s)
  unfolding verify_source_revert_review
  revert_review-IsShorter = grind (arith, added_none, review-IsShorter)

  recovery-IsShorter :
      IsShorter
        (steps_left ProductionHandler.source_recovery_production payload)
        s
        (verify_source_recovery_production run payload s)
  unfolding verify_source_recovery_production
  recovery-IsShorter = grind (arith, added_none, recovery_production-IsShorter)

  durable-IsShorter : IsShorter 6000 s (verify_durable_production run payload s)
  unfolding verify_durable_production check_durable
  durable-IsShorter =
      grind (arith, added_none, begin_durable_rollback-IsShorter, start_durable_watch-IsShorter)

  recovery_watch_job-IsShorter :
      IsShorter
        (steps_left ProductionHandler.watch_source_recovery payload)
        s
        (watch_source_recovery_production run payload s)
  unfolding watch_source_recovery_production
  recovery_watch_job-IsShorter = grind (arith, added_none, recovery_watch-IsShorter)

  durable_watch-IsShorter :
      IsShorter
        (steps_left ProductionHandler.watch_durable payload)
        s
        (watch_durable_production run payload s)
  unfolding watch_durable_production check_durable
  durable_watch-IsShorter =
      grind (arith, added_none, begin_durable_rollback-IsShorter, durable_watched-IsShorter)

  watch-IsShorter :
      IsShorter
        (steps_left ProductionHandler.watch_promoted payload)
        s
        (watch_promoted_production run payload s)
  unfolding watch_promoted_production
  watch-IsShorter = grind (arith, added_none, begin_rollback-IsShorter, watched-IsShorter)

-- Whatever is answered to it, a production job enqueues only jobs with fewer steps left.
handle_production-IsShorter :
    (handler : ProductionHandler) (run : Run) (payload : Payload) (s : Site)
    → IsShorter (steps_left handler payload) s (handle_production handler run payload s)
unfolding handle_production
handle_production-IsShorter handler run payload s = grind (
  arith, rollback-IsShorter, production_action-IsShorter, landing-IsShorter, promotion-IsShorter,
  rolled_back-IsShorter, revert_review-IsShorter, recovery-IsShorter, durable-IsShorter,
  recovery_watch_job-IsShorter, durable_watch-IsShorter, watch-IsShorter,
)

-- A job that stands in the queue after a run and did not before.
pub record IsNew (job : JobRow) (before after : List JobRow) : Type 0 where
  pub is_there : Memᴰ job after
  pub was_not_there : Memᴰ job before → ⊥

new-IsBelow :
    (n : ℕ) (js js' : List JobRow) (job : JobRow)
    → HasAdded n js js'
    → Memᴰ job js'
    → (Memᴰ job js → ⊥)
    → IsBelow n job.job_type job.payload
new-IsBelow n js js' job none_added m new = absurd (new m)
new-IsBelow n js (j ∷ js') job (one_added a b) (head e) new = rw e b
new-IsBelow n js (j ∷ js') job (one_added a b) (tail m) new = new-IsBelow n js js' job a m new

-- A chain of `length` jobs, each enqueued by a run of the one before; the runs may start from any site
-- and get any answers.
pub data Chain : ProductionHandler → Payload → ℕ → Type 0 where
  end_of_chain : {handler : ProductionHandler} {payload : Payload} → Chain handler payload 0
  enqueued :
      {handler next : ProductionHandler} {payload : Payload} {length : ℕ} {job : JobRow} (run : Run)
      (s : Site)
      → IsNew job s.db.jobs (handle_production handler run payload s).1.db.jobs
      → route job.job_type job.payload ≡ some next
      → Chain next job.payload length
      → Chain handler payload (suc length)

at_most : (handler : ProductionHandler) (payload : Payload) → steps_left handler payload ≤ 10000
at_most handler payload = ground arith

-- No chain of production jobs is longer than the steps that its first job has left, which are at most
-- ten thousand: polls, watches, rollbacks and reviews come to an end whatever is answered to them.
pub Chain-steps_left :
    (handler : ProductionHandler) (payload : Payload) (length : ℕ)
    → Chain handler payload length
    → (length ≤ steps_left handler payload) × (steps_left handler payload ≤ 10000)
Chain-steps_left handler payload length end_of_chain = (omega arith, at_most handler payload)
Chain-steps_left handler payload length
      (enqueued {next = next} {length = rest} {job = job} run s new r c) =
    let below =
      new-IsBelow _ _ _ job (handle_production-IsShorter handler run payload s) new.is_there
        new.was_not_there in
    (
      omega (arith, (Chain-steps_left next job.payload rest c).0, below.fewer r),
      at_most handler payload,
    )
