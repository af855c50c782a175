-- ===== src/Operations/Execute/Silent.antt =====
-- The parts of a run that call no helper: apps/worker/src/operations_runtime.rs.
use nopager.Prelude.{
  ℕ, ◌+◌, min, max, ltb, Bool-cases, inl, inr, ◌⊎◌, ◌∷◌, Bool, ◌≡◌, refl, arith, Result, ok, err,
  Text, some, none,
}
use nopager.HelperClient.{RuntimeHelperError, DockerRestartResult, mutation_disposition}
use nopager.Store.Schema.{
  IncidentRow, ActionRow, add_audit_event, verified, verification_failed, executed,
}
use nopager.Store.Incidents.{escalate_incident}
use nopager.Store.Incidents.Laws.{
  transition_incident-actions, escalate_incident-actions, insert_job-actions,
}
use nopager.Operations.Execute.{
  Link, World, mark_operation_status, begin_verification, failure_status,
  fail_closed_helper_execution, after_restart, call_helper, recovered, not_recovered, commit, done,
  process_verify,
}
use nopager.Operations.Execute.Calls.{IsQuiet, IsQuiet-refl, IsQuiet-trans, mark-IsQuiet}

module _ (k : ℕ) where
  pub record IsSilent (w w' : World) : Type 0 where
    pub log : w'.restart_calls ≡ w.restart_calls
    pub rows : IsQuiet k w.db.actions w'.db.actions

  pub begin_verification-IsSilent :
      (i : IncidentRow) (action : ℕ) (w : World) → IsSilent w (begin_verification i action w).1
  unfolding begin_verification
  begin_verification-IsSilent i action w = record {
    log = ground arith;
    rows = IsQuiet-refl k (grind (arith, transition_incident-actions, insert_job-actions));
  }

  pub fail_closed-IsSilent :
      (i : IncidentRow) (action : ℕ) (target : Text) (e : RuntimeHelperError) (w : World)
      → IsSilent w (fail_closed_helper_execution i action target e w).1
  unfolding fail_closed_helper_execution mutation_disposition
  fail_closed-IsSilent i action target e w = record {
    log = ground arith;
    rows =
        IsQuiet-trans k
          (mark-IsQuiet k action (failure_status (mutation_disposition e)) w.db (ground arith))
          (IsQuiet-refl k (grind (arith, escalate_incident-actions)));
  }

  pub after_restart-IsSilent :
      (i : IncidentRow) (action : ℕ) (target : Text)
      (r : Result RuntimeHelperError DockerRestartResult) (w : World)
      → IsSilent w (after_restart i action target r w).1
  unfolding after_restart
  after_restart-IsSilent i action target (err e) w = fail_closed-IsSilent i action target e w
  after_restart-IsSilent i action target (ok r) w =
      let db1 = mark_operation_status action executed w.db in
      let db2 =
        add_audit_event i.project_id (some i.id) "operations-worker"
          "operations.runtime_helper.restart_container" (some target) "success" none db1 in
      let rest = begin_verification-IsSilent i action (record w { db = db2 }) in
      record {
        log = rest.log;
        rows = IsQuiet-trans k (mark-IsQuiet k action executed w.db (ground arith)) rest.rows;
      }

  pub call_helper_cases :
      (link : Link) (i : IncidentRow) (action : ℕ) (target : Text) (w : World)
      → IsSilent w (call_helper link i action target w).1
        ⊎ IsSilent
            (record w { restart_calls = action ∷ w.restart_calls })
            (call_helper link i action target w).1
  unfolding call_helper
  call_helper_cases link i action target w =
      grind (arith, fail_closed-IsSilent, after_restart-IsSilent)

  recovered-IsSilent :
      (i : IncidentRow) (a : ActionRow) (check : ℕ) (w : World)
      → IsSilent w (recovered i a check w).1
  unfolding recovered
  recovered-IsSilent i a check w =
      let required = max 2 (min 3 a.required_consecutive_successes) in
      elim (Bool-cases (ltb (check + 1) required)) [
        | inl e ↦ record {
          log = rw e refl;
          rows = rw e (IsQuiet-refl k (grind (arith, insert_job-actions)));
        }
        | inr e ↦ record {
          log = rw e (ground arith);
          rows = rw e (
              IsQuiet-trans k (mark-IsQuiet k a.id verified w.db (ground arith))
                (IsQuiet-refl k (grind (arith, transition_incident-actions))));
        }
      ]

  not_recovered-IsSilent :
      (i : IncidentRow) (a : ActionRow) (w : World) → IsSilent w (not_recovered i a w).1
  unfolding not_recovered
  not_recovered-IsSilent i a w = record {
    log = ground arith;
    rows =
        IsQuiet-trans k (mark-IsQuiet k a.id verification_failed w.db (ground arith))
          (IsQuiet-refl k (grind (arith, escalate_incident-actions)));
  }

  pub IsSilent-refl : (w : World) → IsSilent w w
  IsSilent-refl w = record { log = refl; rows = IsQuiet-refl k refl }

  escalated-IsSilent :
      (id : ℕ) (w : World) → IsSilent w (commit (escalate_incident id w.db) w done).1
  escalated-IsSilent id w = record {
    log = ground arith;
    rows = IsQuiet-refl k (grind (arith, escalate_incident-actions));
  }

  pub process_verify-IsSilent :
      (health_ok container_ok : Bool) (incident action check : ℕ) (w : World)
      → IsSilent w (process_verify health_ok container_ok incident action check w).1
  unfolding process_verify
  process_verify-IsSilent health_ok container_ok incident action check w =
      grind (arith, IsSilent-refl, escalated-IsSilent, recovered-IsSilent, not_recovered-IsSilent)
