-- ===== src/Operations/Execute/Once.antt =====
-- A run of `process_execute` of apps/worker/src/operations_runtime.rs calls the helper once for an
-- action that is open, and never again until the action is opened.
use nopager.Prelude.{
  ℕ, suc, ◌+◌, ◌≤◌, Bool, true, ◌≡◌, refl, arith, List, [], ◌∷◌, Text, any, if◌then◌else◌, ◌==◌,
  is_some, ◌&&◌, inl, inr, Bool-cases,
}
use nopager.Store.Schema.{
  IncidentRow, ActionRow, ActionStatus, running, blocked, ambiguous, count_rows, find_row,
  update_rows, planned, approval_required, executed, verified, verification_failed, failed_closed,
  rejected,
}
use nopager.Store.Incidents.{IncidentTransition, transition_incident, escalate_incident}
use nopager.Store.Incidents.Laws.{transition_incident-actions, escalate_incident-actions}
use nopager.Operations.Execute.{
  Link, World, process_execute, claim_and_call, call_helper, by_status, with_action, is_planned,
  is_action, mark_operation_status, commit, done,
}
use nopager.Operations.Execute.Calls.{
  is_open, has_id, IsQuiet, IsQuiet-refl, IsQuiet-trans, mark-IsQuiet, claim_closes,
  claim_needs_open, update_rows-IsQuiet,
}
use nopager.Operations.Execute.Silent.{IsSilent, begin_verification-IsSilent, call_helper_cases}

-- How often an action stands in the log of the helper calls.
abbrev pub calls_of : ℕ → List ℕ → ℕ
calls_of k [] = 0
calls_of k (id ∷ log) = let rest = calls_of k log in if id == k then suc rest else rest

module _ (k n : ℕ) where
  -- The action is in one row at most; it has been run `n` times at most while that row is open, and
  -- once more at most when it is not.
  pub record IsOnce (w : World) : Type 0 where
    pub one_row : count_rows (has_id k) w.db.actions ≤ 1
    pub calls : calls_of k w.restart_calls ≤ n + (if any (is_open k) w.db.actions then 0 else 1)

  pub silent-IsOnce : {w w' : World} → IsSilent k w w' → IsOnce w → IsOnce w'
  silent-IsOnce {w} {w'} s o = record {
    one_row = rw s.rows.rows o.one_row;
    calls = rw s.log (ground (arith, o.calls, s.rows.closed));
  }

  module _ (i : IncidentRow) (action : ℕ) where
    abbrev mine : ActionRow → Bool
    mine a = is_action action i.id a && is_planned a.status

    abbrev claim : World → World
    claim w = record w {
      db = record (w.db) {
        actions = update_rows mine (λ a. record a { status = running }) (w.db.actions);
      };
    }

    claim-IsQuiet : (w : World) → IsQuiet k w.db.actions (claim w).db.actions
    claim-IsQuiet w =
        update_rows-IsQuiet k mine (λ a. record a { status = running }) (λ a. refl)
          (λ a _ _. ground arith) w.db.actions

    -- The claim closes the row, so the call that follows is the action's first.
    called-IsOnce :
        (w w' : World)
        → IsOnce w
        → is_some (find_row mine w.db.actions) ≡ true
        → IsSilent k (record (claim w) { restart_calls = action ∷ w.restart_calls }) w'
        → IsOnce w'
    called-IsOnce w w' h found s = record {
      one_row = rw (s.rows.rows, (claim-IsQuiet w).rows) h.one_row;
      calls = rw s.log (elim (Bool-cases (action == k)) [
        | inl same ↦ ground (
          arith,
          h.calls,
          s.rows.closed,
          claim_closes k mine (λ a own. ground arith) w.db.actions h.one_row found,
          claim_needs_open k mine (λ a own. ground arith) w.db.actions found,
        )
        | inr other ↦ ground (arith, h.calls, s.rows.closed, (claim-IsQuiet w).closed)
      ]);
    }

    claimed-IsOnce :
        (link : Link) (target : Text) (w : World)
        → IsOnce w
        → is_some (find_row mine w.db.actions) ≡ true
        → IsOnce (call_helper link i action target (claim w)).1
    claimed-IsOnce link target w h found =
        elim (call_helper_cases k link i action target (claim w)) [
          | inl s ↦
              silent-IsOnce s (silent-IsOnce (record { log = refl; rows = claim-IsQuiet w }) h)
          | inr s ↦ called-IsOnce w _ h found s
        ]

    claim_and_call-IsOnce :
        (link : Link) (target : Text) (w : World)
        → IsOnce w
        → IsOnce (claim_and_call link i action target w).1
    unfolding claim_and_call
    claim_and_call-IsOnce link target w h = grind (arith, claimed-IsOnce)

  marked-IsSilent :
      (id action : ℕ) (w : World)
      → IsSilent k w
          (commit
            (escalate_incident id (mark_operation_status action ambiguous w.db))
            (record w { db = mark_operation_status action ambiguous w.db })
            done).1
  marked-IsSilent id action w = record {
    log = ground arith;
    rows =
        IsQuiet-trans k (mark-IsQuiet k action ambiguous w.db (ground arith))
          (IsQuiet-refl k (grind (arith, escalate_incident-actions)));
  }

  blocked-IsSilent :
      (t : IncidentTransition) (action : ℕ) (w : World)
      → IsSilent k w
          (commit
            (transition_incident t (mark_operation_status action blocked w.db))
            (record w { db = mark_operation_status action blocked w.db })
            done).1
  blocked-IsSilent t action w = record {
    log = ground arith;
    rows =
        IsQuiet-trans k (mark-IsQuiet k action blocked w.db (ground arith))
          (IsQuiet-refl k (grind (arith, transition_incident-actions)));
  }

  by_status-IsOnce :
      (link : Link) (i : IncidentRow) (action : ℕ) (target : Text) (s : ActionStatus) (w : World)
      → IsOnce w
      → IsOnce (by_status link i action target s w).1
  unfolding by_status
  by_status-IsOnce link i action target executed w h =
      silent-IsOnce (begin_verification-IsSilent k i action w) h
  by_status-IsOnce link i action target running w h =
      silent-IsOnce (marked-IsSilent i.id action w) h
  by_status-IsOnce link i action target planned w h = claim_and_call-IsOnce i action link target w h
  by_status-IsOnce link i action target approval_required w h = h
  by_status-IsOnce link i action target verified w h = h
  by_status-IsOnce link i action target verification_failed w h = h
  by_status-IsOnce link i action target blocked w h = h
  by_status-IsOnce link i action target failed_closed w h = h
  by_status-IsOnce link i action target ambiguous w h = h
  by_status-IsOnce link i action target rejected w h = h

  with_action-IsOnce :
      (link : Link) (i : IncidentRow) (action : ℕ) (w : World)
      → IsOnce w
      → IsOnce (with_action link i action w).1
  unfolding with_action
  with_action-IsOnce link i action w h = grind (arith, by_status-IsOnce)

  paused-IsOnce :
      (t : IncidentTransition) (action : ℕ) (w : World)
      → IsOnce w
      → IsOnce
          (commit
            (transition_incident t (mark_operation_status action blocked w.db))
            (record w { db = mark_operation_status action blocked w.db })
            done).1
  paused-IsOnce t action w h = silent-IsOnce (blocked-IsSilent t action w) h

  pub process_execute-IsOnce :
      (link : Link) (incident action : ℕ) (w : World)
      → IsOnce w
      → IsOnce (process_execute link incident action w).1
  unfolding process_execute
  process_execute-IsOnce link incident action w h = grind (arith, with_action-IsOnce, paused-IsOnce)
