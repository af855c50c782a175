-- ===== src/Production/Dispatch/Measure.antt =====
-- A measure of the production jobs that falls from a job to those it enqueues: apps/worker/src/main.rs.
use nopager.Prelude.{
  ℕ, ◌+◌, ◌-◌, ◌<◌, ◌≡◌, inl, inr, arith, some, ok, List, ◌∷◌, Text, unwrap_or, Option-cases, suc,
}
use nopager.Production.Dispatch.{
  ProductionHandler, rollback_action, production_action, land_repair, promoted_production,
  rolled_back_production, source_revert_review, source_recovery_production, durable_production,
  watch_source_recovery, watch_durable, watch_promoted, route,
}
use nopager.Store.Deployments.{mark_deployment_known_good}
use nopager.Store.Incidents.{IncidentTransition, transition_incident, escalate_incident}
use nopager.Store.Schema.{Database, Payload, JobKey, JobRow, insert_job, find_row, key_eq}

abbrev checks_left : Payload → ℕ
checks_left payload = 3 - unwrap_or payload.check 0

-- The polls after the one of the payload, with the last that only gives up.
abbrev polls_left : ℕ → Payload → ℕ
polls_left limit payload = suc limit - unwrap_or payload.poll 0

-- The jobs of a repair come in stages; within a stage, polls or checks are left.
abbrev pub steps_left : ProductionHandler → Payload → ℕ
steps_left production_action payload = 10000
steps_left promoted_production payload = 9000 + polls_left 60 payload
steps_left watch_promoted payload = 8000 + checks_left payload
steps_left land_repair payload = 7000 + polls_left 60 payload
steps_left durable_production payload = 6000
steps_left watch_durable payload = 5000 + checks_left payload
steps_left rollback_action payload = 4000
steps_left rolled_back_production payload = 3000 + polls_left 60 payload
steps_left source_revert_review payload = 100 + polls_left 2015 payload
steps_left source_recovery_production payload = 10 + polls_left 60 payload
steps_left watch_source_recovery payload = checks_left payload

-- A job that no production handler takes, or one with fewer steps left.
pub record IsBelow (n : ℕ) (job_type : Text) (payload : Payload) : Type 0 where
  pub fewer :
      {handler : ProductionHandler}
      → route job_type payload ≡ some handler
      → steps_left handler payload < n

-- Jobs have only been added, and only such jobs.
pub data HasAdded (n : ℕ) (js : List JobRow) : List JobRow → Type 0 where
  none_added : HasAdded n js js
  one_added :
      {js' : List JobRow} {job : JobRow}
      → HasAdded n js js'
      → IsBelow n job.job_type job.payload
      → HasAdded n js (job ∷ js')

pub insert_job-HasAdded :
    (n : ℕ) (js : List JobRow) (job_type : Text) (key : JobKey) (payload : Payload) (m delay : ℕ)
    (db : Database)
    → HasAdded n js db.jobs
    → IsBelow n job_type payload
    → HasAdded n js (insert_job job_type key payload m delay db).jobs
unfolding insert_job
insert_job-HasAdded n js job_type key payload m delay db a b =
    elim (Option-cases (find_row (λ (j : JobRow). key_eq j.idempotency_key key) db.jobs)) [
      | inl e ↦ rw (e, insert_job) (one_added a b)
      | inr (j, e) ↦ rw (e, insert_job) a
    ]

pub added_none : (n : ℕ) (js js' : List JobRow) → js' ≡ js → HasAdded n js js'
added_none n js js' e = rw e none_added

pub transition_incident-jobs :
    (t : IncidentTransition) (db : Database) {db' : Database}
    → transition_incident t db ≡ ok db'
    → db'.jobs ≡ db.jobs
unfolding transition_incident
transition_incident-jobs t db h = ground arith

pub escalate_incident-jobs :
    (id : ℕ) (db : Database) {db' : Database}
    → escalate_incident id db ≡ ok db'
    → db'.jobs ≡ db.jobs
unfolding escalate_incident
escalate_incident-jobs id db h = grind (arith, transition_incident-jobs)

pub mark_deployment_known_good-jobs :
    (project : ℕ) (id : Text) (db : Database) {db' : Database}
    → mark_deployment_known_good project id db ≡ ok db'
    → db'.jobs ≡ db.jobs
unfolding mark_deployment_known_good
mark_deployment_known_good-jobs project id db h = ground arith
