-- ===== src/Operations/Execute/Guards.antt =====
-- When `process_execute` of apps/worker/src/operations_runtime.rs calls the helper.
use nopager.Prelude.{
  ℕ, ◌==◌, true, false, ◌≡◌, ◌≢◌, ◌⊎◌, arith, ◌∷◌, some, inl, inr, Text, text, text_eq,
  Option-cases,
}
use nopager.Core.Incident.{repairing, state_eq_iff}
use nopager.Store.Schema.{
  Database, IncidentRow, ProjectRow, ActionRow, ActionStatus, planned, find_row,
}
use nopager.Operations.Execute.{
  Link, World, process_execute, with_action, by_status, claim_and_call, call_helper, is_action,
}
use nopager.Operations.Execute.Silent.{begin_verification-IsSilent, call_helper_cases}

-- The rows that let a run call the helper.
pub record IsCallable (incident action : ℕ) (db : Database) : Type 0 where
  pub work : IncidentRow
  pub project : ProjectRow
  pub row : ActionRow
  pub target : Text
  pub found_incident : find_row (λ i. i.id == incident) db.incidents ≡ some work
  pub found_project : find_row (λ p. p.id == work.project_id) db.projects ≡ some project
  pub found_action : find_row (is_action action work.id) db.actions ≡ some row
  pub is_repairing : work.status ≡ repairing
  pub not_killed : project.protection_paused ≡ false
  pub is_restart : text_eq row.action_kind (text "restart_container") ≡ true
  pub is_planned : row.status ≡ planned
  pub has_target : row.target_id ≡ some target

call_helper_log :
    (link : Link) (i : IncidentRow) (action : ℕ) (target : Text) (w : World)
    → ((call_helper link i action target w).1.restart_calls ≡ w.restart_calls)
      ⊎ ((call_helper link i action target w).1.restart_calls ≡ action ∷ w.restart_calls)
call_helper_log link i action target w = elim (call_helper_cases action link i action target w) [
  | inl s ↦ inl s.log
  | inr s ↦ inr s.log
]

claim_and_call_log :
    (link : Link) (i : IncidentRow) (action : ℕ) (target : Text) (w : World)
    → ((claim_and_call link i action target w).1.restart_calls ≡ w.restart_calls)
      ⊎ ((claim_and_call link i action target w).1.restart_calls ≡ action ∷ w.restart_calls)
unfolding claim_and_call
claim_and_call_log link i action target w = grind (arith, call_helper_log)

by_status_log :
    (link : Link) (i : IncidentRow) (action : ℕ) (target : Text) (s : ActionStatus) (w : World)
    → ((by_status link i action target s w).1.restart_calls ≡ w.restart_calls)
      ⊎ ((s ≡ planned)
          × ((by_status link i action target s w).1.restart_calls ≡ action ∷ w.restart_calls))
unfolding by_status
by_status_log link i action target s w =
    grind (arith, claim_and_call_log, (begin_verification-IsSilent action i action w).log)

-- If a run of an execution calls the helper, the incident is in repair, the Kill Switch of its project
-- is off, and the action is this incident's, a restart of a container with a target, and planned; the
-- run calls the helper once, for this action.
pub process_execute-IsCallable :
    (link : Link) (incident action : ℕ) (w : World)
    → (process_execute link incident action w).1.restart_calls ≢ w.restart_calls
    → IsCallable incident action w.db
      × ((process_execute link incident action w).1.restart_calls ≡ action ∷ w.restart_calls)
unfolding process_execute with_action
process_execute-IsCallable link incident action w h =
    elim (Option-cases (find_row (λ i. i.id == incident) w.db.incidents)) [
      | inl e ↦ absurd (ground arith)
      | inr (i, e) ↦ elim (Option-cases (find_row (λ p. p.id == i.project_id) w.db.projects)) [
        | inl e1 ↦ absurd (ground arith)
        | inr (p, e1) ↦ elim (Option-cases (find_row (is_action action i.id) w.db.actions)) [
          | inl e2 ↦ absurd (ground arith)
          | inr (a, e2) ↦ elim (Option-cases a.target_id) [
            | inl e3 ↦ absurd (ground arith)
            | inr (t, e3) ↦
                let log = by_status_log link i action t a.status w in
                (
                  record {
                    work = i;
                    project = p;
                    row = a;
                    target = t;
                    found_incident = e;
                    found_project = e1;
                    found_action = e2;
                    has_target = e3;
                    is_repairing = ground (arith, state_eq_iff i.status repairing);
                    not_killed = ground arith;
                    is_restart = ground arith;
                    is_planned = ground (arith, log);
                  },
                  ground (arith, log),
                )
          ]
        ]
      ]
    ]
