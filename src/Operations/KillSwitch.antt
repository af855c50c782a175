-- ===== src/Operations/KillSwitch.antt =====
-- What the jobs of apps/worker/src/operations_runtime.rs do once `set_protection_paused` of
-- crates/nopager-db/src/lib.rs has paused the projects.
use Prim.Native.String.{String}
use nopager.Prelude.{
  ℕ, ◌==◌, true, ◌≡◌, arith, text_eq, eq_of_text_eq, text_eq_of_eq, Bool-cases, inl, inr,
}
use nopager.Store.Schema.{count_rows}
use nopager.Store.Protection.{set_protection_paused}
use nopager.Store.Protection.Laws.{is_inactive, found_is_paused, incident_work-project}
use nopager.Operations.Execute.{Link, World, process_execute}
use nopager.Operations.Execute.Guards.{process_execute-IsCallable}
use nopager.Operations.Plan.{PlanRun}
use nopager.Operations.Decide.{process_plan}
use nopager.Operations.Decide.Guards.{executions, process_plan-IsPlanned}

abbrev pub pull : String → World → World
pull actor w = record w { db = (set_protection_paused true actor w.db).1 }

not_planned :
    (actor : String) (run : PlanRun) (incident : ℕ) (w : World)
    → count_rows is_inactive w.db.projects ≡ 0
    → executions (process_plan run incident (pull actor w)).1.db.jobs
      ≡ executions (pull actor w).db.jobs
not_planned actor run incident w h =
    elim (Bool-cases (
      executions (process_plan run incident (pull actor w)).1.db.jobs
      == executions (pull actor w).db.jobs)) [
        | inl same ↦ ground arith
        | inr other ↦
            let (work, loaded, planned) =
              process_plan-IsPlanned run incident (pull actor w) (λ e. ground arith) in
            let paused_eq =
              found_is_paused actor w.db h _ (incident_work-project incident _ loaded) in
            absurd (ground (arith, planned.is_autonomous.not_paused))
      ]

not_called :
    (actor : String) (link : Link) (incident action : ℕ) (w : World)
    → count_rows is_inactive w.db.projects ≡ 0
    → (process_execute link incident action (pull actor w)).1.restart_calls ≡ w.restart_calls
not_called actor link incident action w h =
    elim (Bool-cases (
      text_eq (process_execute link incident action (pull actor w)).1.restart_calls
        w.restart_calls)) [
          | inl same ↦ eq_of_text_eq _ _ same
          | inr other ↦
              let (callable, _) =
                process_execute-IsCallable link incident action (pull actor w)
                  (λ e. ground (arith, text_eq_of_eq _ _ e)) in
              let paused_eq = found_is_paused actor w.db h _ callable.found_project in
              absurd (ground (arith, callable.not_killed))
        ]

-- After the Kill Switch has been pulled, all projects being active, no planning job puts an execution
-- in the queue, and no execution that is in the queue calls the helper.
pub kill_switch_stops_operations :
    (actor : String) (run : PlanRun) (link : Link) (incident action : ℕ) (w : World)
    → count_rows is_inactive w.db.projects ≡ 0
    → (executions (process_plan run incident (pull actor w)).1.db.jobs
        ≡ executions (pull actor w).db.jobs)
      × ((process_execute link incident action (pull actor w)).1.restart_calls ≡ w.restart_calls)
kill_switch_stops_operations actor run link incident action w h =
    (not_planned actor run incident w h, not_called actor link incident action w h)
