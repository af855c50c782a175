-- ===== src/Operations/Execute/Planning.antt =====
-- What the planning job of apps/worker/src/operations_runtime.rs, the context job and
-- `set_protection_paused` of crates/nopager-db/src/lib.rs leave alone: the log of the helper calls and
-- the number of rows of an action that is there.
use Prim.Native.String.{String}
use nopager.Prelude.{
  ℕ, ◌≤◌, ◌<◌, Bool, true, false, ◌≡◌, refl, ◌∙◌, arith, List, [], ◌∷◌, ok, Text, some, none,
  Option-cases, Result-cases, Bool-cases, inl, inr, ◌==◌, sym,
}
use nopager.Core.Incident.{opened, collecting_context, state_eq}
use nopager.Decision.{
  OperationsDecision, OperationsActionKind, delegate_deployment_recovery, observe_only, escalate,
  restart_service, restart_instance,
}
use nopager.Policy.{PolicyDecision, allow, require_approval, block}
use nopager.Store.Schema.{
  Database, ActionRow, ActionStatus, count_rows, update_rows, find_row, add_audit,
}
use nopager.Store.Incidents.{IncidentTransition, transition_incident, escalate_incident}
use nopager.Store.Incidents.Laws.{
  transition_incident-actions, escalate_incident-actions, insert_job-actions,
  transition_incident-next_id, escalate_incident-next_id, insert_job-next_id,
}
use nopager.Store.Deployments.{IncidentWork}
use nopager.Store.Protection.{
  for_each, resume_incident, enqueue_resume, resume_project, change_project, is_other,
  set_protection_paused,
}
use nopager.Operations.Execute.{World, Outcome, step, mark_operation_status, commit, done}
use nopager.Operations.Execute.Calls.{has_id}
use nopager.Operations.Plan.{policy_name, PlanRun, enqueue_plan, context_step, process_context}
use nopager.Operations.Decide.{
  persist_operation_action, enqueue_execute, by_policy, persist_and_act, plan_restart,
  plan_container_restart, delegate, by_action, decide_plan, plan_audit, plan_step, process_plan,
}

module _ (k : ℕ) where
  -- No helper call, no further row for an action whose id was given before, and ids that only grow.
  pub record IsGrowing (w w' : World) : Type 0 where
    pub log : w'.restart_calls ≡ w.restart_calls
    pub ids : w.db.next_id ≤ w'.db.next_id
    pub rows :
        k < w.db.next_id → count_rows (has_id k) w'.db.actions ≡ count_rows (has_id k) w.db.actions

  pub IsGrowing-refl : (w : World) → IsGrowing w w
  IsGrowing-refl w = record { log = refl; ids = omega arith; rows = λ _. refl }

  pub IsGrowing-trans : {u v w : World} → IsGrowing u v → IsGrowing v w → IsGrowing u w
  IsGrowing-trans p q = record {
    log = q.log ∙ p.log;
    ids = omega (arith, p.ids, q.ids);
    rows = λ h. q.rows (omega (arith, p.ids)) ∙ p.rows h;
  }

  via-IsGrowing : {u v v' : World} → v' ≡ v → IsGrowing u v → IsGrowing u v'
  via-IsGrowing e h = rw e h

  pub same-IsGrowing :
      (w : World) (db : Database)
      → db.actions ≡ w.db.actions
      → w.db.next_id ≤ db.next_id
      → IsGrowing w (record w { db = db })
  same-IsGrowing w db same ids = record { log = refl; ids = ids; rows = λ _. rw same refl }

  mark_rows :
      (id : ℕ) (s : ActionStatus) (rows : List ActionRow)
      → count_rows (has_id k) (update_rows (λ a. a.id == id) (λ a. record a { status = s }) rows)
        ≡ count_rows (has_id k) rows
  unfolding count_rows update_rows
  mark_rows id s [] = refl
  mark_rows id s (a ∷ rows) = ground (arith, mark_rows id s rows)

  marked-IsGrowing :
      (id : ℕ) (s : ActionStatus) (w : World)
      → IsGrowing w (record w { db = mark_operation_status id s w.db })
  unfolding mark_operation_status
  marked-IsGrowing id s w = record {
    log = refl;
    ids = omega arith;
    rows = λ _. mark_rows id s w.db.actions;
  }

  escalated-IsGrowing :
      (id : ℕ) (w : World) → IsGrowing w (commit (escalate_incident id w.db) w done).1
  escalated-IsGrowing id w = record {
    log = ground arith;
    ids = grind (arith, escalate_incident-next_id);
    rows = λ _. grind (arith, escalate_incident-actions);
  }

  moved-IsGrowing :
      (t : IncidentTransition) (w : World)
      → IsGrowing w (commit (transition_incident t w.db) w done).1
  moved-IsGrowing t w = record {
    log = ground arith;
    ids = grind (arith, transition_incident-next_id);
    rows = λ _. grind (arith, transition_incident-actions);
  }

  enqueued-IsGrowing :
      (id : ℕ) (w : World) → IsGrowing w (done (record w { db = enqueue_plan id w.db })).1
  unfolding enqueue_plan
  enqueued-IsGrowing id w =
      same-IsGrowing w _ (insert_job-actions _ _ _ 3 0 w.db) (insert_job-next_id _ _ _ 3 0 w.db)

  -- A transition, and what follows it.
  next-IsGrowing :
      (t : IncidentTransition) (w : World) (f : World → Outcome)
      → ((v : World) → IsGrowing v (f v).1)
      → IsGrowing w (commit (transition_incident t w.db) w f).1
  next-IsGrowing t w f h = elim (Result-cases (transition_incident t w.db)) [
    | inl (_, e) ↦ via-IsGrowing (ground arith) (IsGrowing-refl w)
    | inr (db, e) ↦ via-IsGrowing {v = (f (record w { db = db })).1} (ground arith) (
        IsGrowing-trans
          (same-IsGrowing w db (transition_incident-actions t w.db e)
            (omega (arith, transition_incident-next_id t w.db e)))
          (h (record w { db = db })))
  ]

  module _ (work : IncidentWork) where
    by_policy-IsGrowing :
        (id : ℕ) (policy : PolicyDecision) (w : World) → IsGrowing w (by_policy work id policy w).1
    unfolding by_policy enqueue_execute
    by_policy-IsGrowing id allow w = record {
      log = ground arith;
      ids = grind (arith, transition_incident-next_id, insert_job-next_id);
      rows = λ _. grind (arith, transition_incident-actions, insert_job-actions);
    }
    by_policy-IsGrowing id require_approval w =
        IsGrowing-trans (marked-IsGrowing id ActionStatus.approval_required w) (moved-IsGrowing _ _)
    by_policy-IsGrowing id block w = elim (Bool-cases work.project.protection_paused) [
      | inl e ↦
          rw e (IsGrowing-trans (marked-IsGrowing id ActionStatus.blocked w) (moved-IsGrowing _ _))
      | inr e ↦
          rw e
            (IsGrowing-trans (marked-IsGrowing id ActionStatus.blocked w) (escalated-IsGrowing _ _))
    ]

    persisted-IsGrowing :
        (target : Text) (decision : OperationsDecision) (policy : PolicyDecision) (w : World)
        {id : ℕ} {db : Database}
        → persist_operation_action work target decision policy w.db ≡ ok (id, db)
        → IsGrowing w (record w { db = db })
    unfolding persist_operation_action count_rows
    persisted-IsGrowing target decision policy w {id} {db} h =
        elim (Option-cases (find_row (λ a. a.incident_id == work.incident.id) w.db.actions)) [
          | inl e ↦ record { log = refl; ids = ground arith; rows = λ below. ground arith }
          | inr (a, e) ↦ record { log = refl; ids = ground arith; rows = λ below. ground arith }
        ]

    acted :
        (target : Text) (decision : OperationsDecision) (policy : PolicyDecision) (w : World)
        {id : ℕ} {db : Database}
        → persist_operation_action work target decision policy w.db ≡ ok (id, db)
        → (by_policy work id policy (record w {
          db =
              add_audit work.incident.project_id
                (some work.incident.id)
                "policy-engine"
                "operations.policy"
                (policy_name policy)
                db;
        })).1
          ≡ (persist_and_act work target decision policy w).1
    unfolding persist_and_act
    acted target decision policy w {id} {db} h = ground arith

    persist_and_act-IsGrowing :
        (target : Text) (decision : OperationsDecision) (policy : PolicyDecision) (w : World)
        → IsGrowing w (persist_and_act work target decision policy w).1
    unfolding persist_and_act
    persist_and_act-IsGrowing target decision policy w =
        elim (Result-cases (persist_operation_action work target decision policy w.db)) [
          | inl (_, e) ↦ via-IsGrowing (ground arith) (IsGrowing-refl w)
          | inr ((id, db), e) ↦ via-IsGrowing (sym (acted target decision policy w e)) (
              IsGrowing-trans (persisted-IsGrowing target decision policy w e) (
                IsGrowing-trans (same-IsGrowing (record w { db = db }) _ refl (omega arith))
                  (by_policy-IsGrowing id policy _)))
        ]

    plan_restart-IsGrowing :
        (run : PlanRun) (target : Text) (decision : OperationsDecision) (w : World)
        → IsGrowing w (plan_restart run work target decision w).1
    unfolding plan_restart
    plan_restart-IsGrowing run target decision w =
        grind (arith, IsGrowing-refl, persist_and_act-IsGrowing)

    plan_container_restart-IsGrowing :
        (run : PlanRun) (decision : OperationsDecision) (w : World)
        → IsGrowing w (plan_container_restart run work decision w).1
    unfolding plan_container_restart
    plan_container_restart-IsGrowing run decision w =
        grind (arith, IsGrowing-refl, escalated-IsGrowing, next-IsGrowing, plan_restart-IsGrowing)

    delegate-IsGrowing : (run : PlanRun) (w : World) → IsGrowing w (delegate run work w).1
    unfolding delegate
    delegate-IsGrowing run w =
        grind (arith, escalated-IsGrowing, same-IsGrowing, insert_job-actions, insert_job-next_id)

    by_action-IsGrowing :
        (run : PlanRun) (decision : OperationsDecision) (kind : OperationsActionKind) (w : World)
        → IsGrowing w (by_action run work decision kind w).1
    unfolding by_action
    by_action-IsGrowing run decision delegate_deployment_recovery w = delegate-IsGrowing run w
    by_action-IsGrowing run decision observe_only w = escalated-IsGrowing _ w
    by_action-IsGrowing run decision escalate w = escalated-IsGrowing _ w
    by_action-IsGrowing run decision OperationsActionKind.restart_container w =
        plan_container_restart-IsGrowing run decision w
    by_action-IsGrowing run decision restart_service w = IsGrowing-refl w
    by_action-IsGrowing run decision restart_instance w = IsGrowing-refl w

    audited-IsGrowing :
        (run : PlanRun) (decision : OperationsDecision) (kind : OperationsActionKind)
        (outcome : String) (w : World)
        → IsGrowing w (by_action run work decision kind (plan_audit work outcome w)).1
    audited-IsGrowing run decision kind outcome w =
        IsGrowing-trans (same-IsGrowing w (plan_audit work outcome w).db refl (omega arith))
          (by_action-IsGrowing run decision kind (plan_audit work outcome w))

    audit-IsGrowing : (outcome : String) (w : World) → IsGrowing w (plan_audit work outcome w)
    audit-IsGrowing outcome w = same-IsGrowing w (plan_audit work outcome w).db refl (omega arith)

    decide_plan-IsGrowing : (run : PlanRun) (w : World) → IsGrowing w (decide_plan run work w).1
    unfolding decide_plan
    decide_plan-IsGrowing run w = grind (arith, IsGrowing-refl, audit-IsGrowing, audited-IsGrowing)

    plan_step-IsGrowing : (run : PlanRun) (w : World) → IsGrowing w (plan_step run work w).1
    unfolding plan_step
    plan_step-IsGrowing run w = grind (arith, IsGrowing-refl, next-IsGrowing, decide_plan-IsGrowing)

    abbrev opening : IncidentTransition
    opening =
        step work.incident opened collecting_context "operations-worker"
          "Collecting bounded production operations evidence"

    context_step-IsGrowing : (w : World) → IsGrowing w (context_step work w).1
    unfolding context_step
    context_step-IsGrowing w = elim (Bool-cases (state_eq work.incident.status opened)) [
      | inl e ↦
          via-IsGrowing
            {v = (commit (transition_incident opening w.db) w
              (λ v. done (record v { db = enqueue_plan work.incident.id v.db }))).1}
            (ground arith)
            (next-IsGrowing opening w
              (λ v. done (record v { db = enqueue_plan work.incident.id v.db }))
              (enqueued-IsGrowing work.incident.id))
      | inr e ↦ grind (arith, IsGrowing-refl, enqueued-IsGrowing)
    ]

  pub process_plan-IsGrowing :
      (run : PlanRun) (incident : ℕ) (w : World) → IsGrowing w (process_plan run incident w).1
  unfolding process_plan
  process_plan-IsGrowing run incident w = grind (arith, IsGrowing-refl, plan_step-IsGrowing)

  pub process_context-IsGrowing :
      (incident : ℕ) (w : World) → IsGrowing w (process_context incident w).1
  unfolding process_context
  process_context-IsGrowing incident w = grind (arith, IsGrowing-refl, context_step-IsGrowing)

  resumed-IsGrowing :
      (project : ℕ) (actor : String) (id : ℕ) (w : World)
      → IsGrowing w (record w { db = resume_incident project actor id w.db })
  unfolding resume_incident enqueue_resume
  resumed-IsGrowing project actor id w = same-IsGrowing w _ (ground arith) (ground arith)

  each-IsGrowing :
      (f : ℕ → Database → Database)
      → ((id : ℕ) (w : World) → IsGrowing w (record w { db = f id w.db }))
      → (ids : List ℕ) (w : World) → IsGrowing w (record w { db = for_each ids f w.db })
  unfolding for_each
  each-IsGrowing f h [] w = IsGrowing-refl w
  each-IsGrowing f h (id ∷ ids) w =
      IsGrowing-trans (h id w) (each-IsGrowing f h ids (record w { db = f id w.db }))

  change_project-IsGrowing :
      (value : Bool) (actor : String) (project : ℕ) (w : World)
      → IsGrowing w (record w { db = change_project value actor project w.db })
  unfolding change_project resume_project
  change_project-IsGrowing true actor project w = same-IsGrowing w _ refl (omega arith)
  change_project-IsGrowing false actor project w =
      IsGrowing-trans
        (same-IsGrowing w (add_audit project none actor "protection.resume" "success" w.db) refl
          (omega arith))
        (each-IsGrowing (resume_incident project actor) (resumed-IsGrowing project actor) _ _)

  pub set_protection_paused-IsGrowing :
      (value : Bool) (actor : String) (w : World)
      → IsGrowing w (record w { db = (set_protection_paused value actor w.db).1 })
  unfolding set_protection_paused
  set_protection_paused-IsGrowing value actor w =
      IsGrowing-trans (same-IsGrowing w _ refl (omega arith)) (
        each-IsGrowing (change_project value actor) (change_project-IsGrowing value actor) _
          (record w {
            db = record (w.db) {
              projects =
                  update_rows (is_other value) (λ p. record p { protection_paused = value })
                    w.db.projects;
            };
          }))
