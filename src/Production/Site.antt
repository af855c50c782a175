-- ===== src/Production/Site.antt =====
-- What one run of a production job of apps/worker reads, writes and asks: the store, the answers of
-- Vercel and GitHub, and the health of the site. The logs of what was asked of Vercel and GitHub are
-- read by no code; the rows of `integrations` that a job reads are part of the run.
use Prim.Native.String.{String}
use nopager.Prelude.{
  ℕ, Bool, Option, none, some, List, [], ◌∷◌, Text, text, if◌then◌else◌, Result, ok, err,
}
use nopager.Core.Incident.{IncidentState, paused, state_eq}
use nopager.Connectors.Vercel.{ConnectorError, Wire}
use nopager.Connectors.SourceCompatibility.{SourceCompatibilityError}
use nopager.Production.Discovery.{DiscoveryError}
use nopager.Store.Schema.{
  Database, DatabaseError, JobKey, Payload, empty_payload, RevertIdentity, insert_job,
  add_audit_event,
}
use nopager.Store.Incidents.{IncidentTransition, transition_incident, escalate_incident}
use nopager.Store.Deployments.{IncidentWork}

pub record Site : Type 0 where
  pub db : Database
  pub rollbacks : List Text  -- the deployments that traffic was sent back to, newest first
  pub promotions : List Text
  pub landings : List ℕ  -- the attempts whose pull request was landed

-- `PullRequestStatus`
pub record PullRequestStatus : Type 0 where
  pub identity : RevertIdentity
  pub is_merged : Bool
  pub merge_commit_sha : Option Text

pub data RevertPullRequestOutcome : Type 0 where
  created existing_candidate : RevertIdentity → RevertPullRequestOutcome

-- What GitHub answers in one run, for the branch, the head and the base of a repair.
pub record GitHub : Type 0 where
  pub land_repair_pr : Text → Text → Text → Result ConnectorError Text
  pub open_revert : Text → Text → Text → Result ConnectorError RevertPullRequestOutcome
  pub pull_request : ℕ → Result ConnectorError PullRequestStatus
  pub branch_head : Text → Result ConnectorError Text

pub record Run : Type 0 where
  pub vercel_project_id : Option Text
  pub vercel : Option Wire  -- `none` where no client can be built
  pub github : Option GitHub
  pub owner : Text
  pub repo : Text
  pub base_branch : Option Text
  pub repo_id : Option ℕ
  pub healthy : Bool
  pub production_url : Text

pub data ProductionError : Type 0 where
  database : DatabaseError → ProductionError
  connector : ConnectorError → ProductionError
  discovery : DiscoveryError → ProductionError
  incompatible : SourceCompatibilityError → ProductionError
  missing timed_out unsupported_action unhealthy drifted untrusted : ProductionError

abbrev pub Outcome : Type 0
Outcome = Result ProductionError (Unit {0}) × Site

abbrev pub done : Site → Outcome
done s = (ok tt, s)

abbrev pub fail : ProductionError → Site → Outcome
fail e s = (err e, s)

-- `….await?` of a part of the run.
abbrev pub after : Outcome → (Site → Outcome) → Outcome
after (err e, s) k = fail e s
after (ok _, s) k = k s

-- `.ok_or_else(…)?`
abbrev pub need {ℓ} : {A : Type ℓ} → Option A → Site → (A → Outcome) → Outcome
need none s k = fail missing s
need (some a) s k = k a

-- `database.…(…).await?` of a read, and of a write: what was committed before stays.
abbrev pub load {ℓ} : {A : Type ℓ} → Result DatabaseError A → Site → (A → Outcome) → Outcome
load (err e) s k = fail (database e) s
load (ok a) s k = k a

abbrev pub commit : Result DatabaseError Database → Site → (Site → Outcome) → Outcome
commit (err e) s k = fail (database e) s
commit (ok db) s k = k (record s { db = db })

-- `….await?` on a connector.
abbrev pub ask {ℓ} : {A : Type ℓ} → Result ConnectorError A → Site → (A → Outcome) → Outcome
ask (err e) s k = fail (connector e) s
ask (ok a) s k = k a

abbrev pub write : (Database → Database) → Site → Site
write change s = record s { db = change s.db }

abbrev pub moving : IncidentWork → IncidentState → IncidentState → String → IncidentTransition
moving work from to message = record {
  project_id = work.incident.project_id;
  incident_id = work.incident.id;
  expected = from;
  next = to;
  actor = "worker";
  message = message;
}

abbrev pub move :
    IncidentWork → IncidentState → IncidentState → String → Site → (Site → Outcome) → Outcome
move work from to message s k = commit (transition_incident (moving work from to message) s.db) s k

abbrev pub escalate : ℕ → Site → Outcome
escalate id s = commit (escalate_incident id s.db) s done

abbrev pub audit : IncidentWork → String → Text → String → Site → Site
audit work action target outcome = write (
    add_audit_event work.incident.project_id (some work.incident.id) "worker" action (some target)
      outcome none)

-- `if work.protection_paused { … return Ok(()); }`
unfoldable pub pause : IncidentWork → String → Site → Outcome
pause work message s =
    if state_eq work.incident.status paused
    then done s
    else move work work.incident.status paused message s done

abbrev pub attempt_payload : ℕ → ℕ → Payload
attempt_payload incident attempt = record empty_payload {
  incident_id = some incident;
  attempt_id = some attempt;
}

abbrev pub incident_key : Text → List ℕ → JobKey
incident_key family parts = record { family = family; parts = parts }

abbrev pub enqueue : Text → JobKey → Payload → (max_attempts delay : ℕ) → Site → Site
enqueue job_type key payload max_attempts delay =
    write (insert_job job_type key payload max_attempts delay)

abbrev pub enqueue_cleanup : ℕ → ℕ → Site → Site
enqueue_cleanup incident attempt =
    enqueue (text "cleanup") (incident_key (text "incident:cleanup") (incident ∷ attempt ∷ []))
      (attempt_payload incident attempt) 3 0
