-- ===== src/Production/Rollback/Silence.antt =====
-- What a rollback that does not work out leaves behind: apps/worker/src/main.rs.
use nopager.Prelude.{ℕ, ◌<◌, false, ◌≡◌, ◌⊎◌, arith, some, Text, Result, ok, err}
use nopager.Core.Incident.{rolled_back, state_eq_iff}
use nopager.Connectors.Vercel.{Wire}
use nopager.Production.Discovery.{
  DiscoveryError, ProductionReadiness, ready, current_live_production_readiness,
}
use nopager.Production.Site.{Site, Run, escalate}
use nopager.Production.Rollback.{
  verify_rolled_back_production, rolled_back_action, by_readiness, poll_of,
  max_rollback_activation_polls,
}
use nopager.Store.Schema.{Payload, Database, DeploymentRow}
use nopager.Store.Rows.{found_test}
use nopager.Store.Incidents.{escalate_incident}
use nopager.Store.Deployments.{IncidentWork, incident_work, latest_known_good_deployment}

pub incident_work-id :
    (id : ℕ) (db : Database) (work : IncidentWork)
    → incident_work id db ≡ ok work
    → work.incident.id ≡ id
unfolding incident_work
incident_work-id id db work h = grind (arith, found_test)

escalate_rolled_back :
    (id : ℕ) (work : IncidentWork) (s : Site)
    → incident_work id s.db ≡ ok work
    → work.incident.status ≡ rolled_back
    → escalate work.incident.id s ≡ (ok tt, s)
unfolding escalate_incident incident_work
escalate_rolled_back id work s w h = grind (arith, found_test)

-- The ways in which a rollback turns out not to have worked.
abbrev pub HasFailed : Run → Payload → Wire → Text → Type 0
HasFailed run payload wire known_good =
    (max_rollback_activation_polls < poll_of payload)
    ⊎ ((e : DiscoveryError) × (current_live_production_readiness wire known_good ≡ err e))
    ⊎ ((current_live_production_readiness wire known_good ≡ ok ready) × (run.healthy ≡ false))

by_readiness_silent :
    (run : Run) (work : IncidentWork) (attempt : ℕ) (known_good : Text) (payload : Payload)
    (r : Result DiscoveryError ProductionReadiness) (s : Site)
    → escalate work.incident.id s ≡ (ok tt, s)
    → ((e : DiscoveryError) × (r ≡ err e)) ⊎ ((r ≡ ok ready) × (run.healthy ≡ false))
    → by_readiness run work attempt known_good payload r s ≡ (ok tt, s)
unfolding by_readiness
by_readiness_silent run work attempt known_good payload r s e h = ground arith

-- If the check of a rollback finds that the known-good deployment did not become current in sixty-one
-- polls, that Vercel gives no good answer about it, or that it is current and the site is still not
-- healthy, the job succeeds and changes nothing: the incident stays rolled back, with no event, no
-- audit row and no further job.
pub verify_rolled_back_production_silent :
    (run : Run) (payload : Payload) (s : Site) {incident attempt : ℕ} {work : IncidentWork}
    {known_good : DeploymentRow} {wire : Wire}
    → payload.incident_id ≡ some incident
    → payload.attempt_id ≡ some attempt
    → incident_work incident s.db ≡ ok work
    → work.incident.status ≡ rolled_back
    → latest_known_good_deployment work.incident.project_id s.db ≡ some known_good
    → run.vercel ≡ some wire
    → HasFailed run payload wire known_good.provider_deployment_id
    → verify_rolled_back_production run payload s ≡ (ok tt, s)
unfolding verify_rolled_back_production rolled_back_action
verify_rolled_back_production_silent run payload s {incident} {attempt} {work} {known_good} i a w r
      k v h =
    let silent = escalate_rolled_back incident work s w r in
    grind (arith, silent, by_readiness_silent, state_eq_iff)
