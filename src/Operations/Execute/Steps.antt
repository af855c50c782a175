-- ===== src/Operations/Execute/Steps.antt =====
-- How often the helper is called for an action: the jobs of apps/worker/src/operations_runtime.rs with
-- `approve_incident`, `reject_incident` and `set_protection_paused` of crates/nopager-db/src/lib.rs.
use Prim.Native.String.{String}
use nopager.Prelude.{ℕ, suc, ◌+◌, ◌≤◌, ◌<◌, Bool, refl, arith, List, [], ◌∷◌}
use nopager.Store.Schema.{Database, count_rows}
use nopager.Store.Approval.{approve_incident, reject_incident}
use nopager.Operations.Execute.{Link, World, process_execute, process_verify}
use nopager.Operations.Execute.Calls.{has_id}
use nopager.Store.Protection.{set_protection_paused}
use nopager.Operations.Plan.{PlanRun, process_context}
use nopager.Operations.Decide.{process_plan}
use nopager.Operations.Execute.Ids.{
  process_execute-next_id, process_verify-next_id, approve_incident-next_id,
  reject_incident-next_id,
}
use nopager.Operations.Execute.Planning.{
  IsGrowing, process_plan-IsGrowing, process_context-IsGrowing, set_protection_paused-IsGrowing,
}
use nopager.Operations.Execute.Kept.{process_context-IsSilent, set_protection_paused-IsSilent}
use nopager.Operations.Execute.Decisions.{approve-IsQuiet, reject-IsQuiet}
use nopager.Operations.Execute.Silent.{process_verify-IsSilent}
use nopager.Operations.Execute.Once.{calls_of, IsOnce, silent-IsOnce, process_execute-IsOnce}

-- One thing that happens to the actions: a job of the worker, or what an administrator does.
pub data WorkerStep : Type 0 where
  context : (incident : ℕ) → WorkerStep
  plan : PlanRun → (incident : ℕ) → WorkerStep
  execute : Link → (incident action : ℕ) → WorkerStep
  verify : (health_ok container_ok : Bool) → (incident action check : ℕ) → WorkerStep
  approve reject : (incident : ℕ) → (actor : String) → WorkerStep
  set_paused : (value : Bool) → (actor : String) → WorkerStep

unfoldable pub run_step : WorkerStep → World → World
run_step (context incident) w = (process_context incident w).1
run_step (plan run incident) w = (process_plan run incident w).1
run_step (execute link incident action) w = (process_execute link incident action w).1
run_step (verify health_ok container_ok incident action check) w =
    (process_verify health_ok container_ok incident action check w).1
run_step (approve incident actor) w = record w { db = (approve_incident incident actor w.db).1 }
run_step (reject incident actor) w = record w { db = (reject_incident incident actor w.db).1 }
run_step (set_paused value actor) w = record w { db = (set_protection_paused value actor w.db).1 }

unfoldable pub run_steps : List WorkerStep → World → World
run_steps [] w = w
run_steps (s ∷ ss) w = run_steps ss (run_step s w)

-- How many planning jobs there are among the steps.
abbrev pub plans : List WorkerStep → ℕ
plans [] = 0
plans (plan _ _ ∷ ss) = suc (plans ss)
plans (_ ∷ ss) = plans ss

-- The bound holds with `n` planning jobs so far, and the id of the action was given before.
record IsBounded (k n : ℕ) (w : World) : Type 0 where
  once : IsOnce k n w
  fresh : k < w.db.next_id

-- A step that cannot open the action.
quiet-IsBounded :
    (k n : ℕ) {w w' : World}
    → IsOnce k n w'
    → w.db.next_id ≤ w'.db.next_id
    → IsBounded k n w
    → IsBounded k n w'
quiet-IsBounded k n once ids h = record { once = once; fresh = omega (arith, h.fresh, ids) }

planned-IsBounded :
    (k n : ℕ) {w w' : World} → IsGrowing k w w' → IsBounded k n w → IsBounded k (suc n) w'
planned-IsBounded k n {w} {w'} g h = record {
  once = record {
    one_row = rw (g.rows h.fresh) h.once.one_row;
    calls = rw g.log (ground (arith, h.once.calls));
  };
  fresh = omega (arith, h.fresh, g.ids);
}

steps_bound :
    (k n : ℕ) (ss : List WorkerStep) (w : World)
    → IsBounded k n w
    → calls_of k (run_steps ss w).restart_calls ≤ suc (n + plans ss)
unfolding run_steps run_step
steps_bound k n [] w h = ground (arith, h.once.calls)
steps_bound k n (plan run incident ∷ ss) w h = omega (
  arith,
  steps_bound k (suc n) ss _ (planned-IsBounded k n (process_plan-IsGrowing k run incident w) h),
)
steps_bound k n (context incident ∷ ss) w h = steps_bound k n ss _ (
    quiet-IsBounded k n (silent-IsOnce k n (process_context-IsSilent k incident w) h.once)
      (process_context-IsGrowing k incident w).ids h)
steps_bound k n (execute link incident action ∷ ss) w h = steps_bound k n ss _ (
    quiet-IsBounded k n (process_execute-IsOnce k n link incident action w h.once)
      (process_execute-next_id link incident action w) h)
steps_bound k n (verify health_ok container_ok incident action check ∷ ss) w h =
    steps_bound k n ss _ (
      quiet-IsBounded k n
        (silent-IsOnce k n
          (process_verify-IsSilent k health_ok container_ok incident action check w) h.once)
        (process_verify-next_id health_ok container_ok incident action check w) h)
steps_bound k n (approve incident actor ∷ ss) w h = steps_bound k n ss _ (
    quiet-IsBounded k n
      (silent-IsOnce k n (record { log = refl; rows = approve-IsQuiet k incident actor w.db })
        h.once)
      (approve_incident-next_id incident actor w.db) h)
steps_bound k n (reject incident actor ∷ ss) w h = steps_bound k n ss _ (
    quiet-IsBounded k n
      (silent-IsOnce k n (record { log = refl; rows = reject-IsQuiet k incident actor w.db })
        h.once)
      (reject_incident-next_id incident actor w.db) h)
steps_bound k n (set_paused value actor ∷ ss) w h = steps_bound k n ss _ (
    quiet-IsBounded k n (silent-IsOnce k n (set_protection_paused-IsSilent k value actor w) h.once)
      (set_protection_paused-IsGrowing k value actor w).ids h)

-- Where an action is in at most one row, its id was given before and nothing has been called yet, then
-- in any sequence of context, planning, execution and verification jobs, of approvals and rejections,
-- and of pauses and resumes, whatever the model and the helper answer, the helper is called for this
-- action at most once more than there are planning jobs in the sequence: with none, at most once.
pub action_called_at_most_once :
    (k : ℕ) (ss : List WorkerStep) (db : Database)
    → count_rows (has_id k) db.actions ≤ 1
    → k < db.next_id
    → calls_of k (run_steps ss (record { db = db; restart_calls = [] })).restart_calls
      ≤ suc (plans ss)
action_called_at_most_once k ss db h fresh = omega (
  arith,
  steps_bound k 0 ss (record { db = db; restart_calls = [] })
      (record { once = record { one_row = h; calls = ground arith }; fresh = fresh }),
)
