-- ===== src/Operations/Tests.antt =====
-- Runs of the worker and witnesses for its laws (apps/worker/src/operations_runtime.rs).
use nopager.Prelude.{
  ℕ, ◌≤◌, suc, ◌==◌, if◌then◌else◌, Bool, true, false, not, ◌≡◌, ◌≢◌, refl, arith, Option, none,
  some, List, [], ◌∷◌, Text, text, text_eq, ok, length,
}
use nopager.Protocol.{ContainerState, success_response, restarted, RuntimeRequest}
use nopager.Core.Incident.{repairing, can_transition_to}
use nopager.HelperClient.{answered, restart_container}
use nopager.Store.Schema.{
  Database, ProjectRow, IncidentRow, ActionRow, ActionStatus, RecordedDecision, find_row,
  update_rows, count_rows, insert_job,
}
use nopager.Operations.Execute.{Link, World, process_execute}
use nopager.Operations.Execute.Calls.{has_id}
use nopager.Operations.Plan.{PlanRun}
use nopager.Operations.Execute.Once.{calls_of}
use nopager.Operations.Execute.Steps.{
  WorkerStep, plan, set_paused, execute, verify, approve, run_steps, action_called_at_most_once,
}
use nopager.Operations.Execute.Guards.{IsCallable, process_execute-IsCallable}

run_worker : Unit {0}
unfolding process_execute find_row update_rows count_rows insert_job restart_container text_eq
    can_transition_to
run_worker = tt

abbrev target : Text
target = text "aaaaaaaaaaaaaaaaaaaaaaaaaaaaaaaaaaaaaaaaaaaaaaaaaaaaaaaaaaaaaaaa"

abbrev app : ContainerState
app = record {
  id = target;
  name = text "app";
  status = text "running";
  compose_project = none;
  compose_service = none;
  nopager_control_plane = false;
}

abbrev size : RuntimeRequest → ℕ
size r = length r.credential

abbrev link : Link
link = record {
  client = ok (record { socket_path = text "/run/s"; credential = text "c"; timeout = 30 });
  encoded_len = size;
  wire = answered 300 (some (success_response 9 (restarted app app)));
}

abbrev project : ProjectRow
project = record { id = 1; is_active = true; safety_mode = text "SAFE"; protection_paused = false }

abbrev incident : IncidentRow
incident = record {
  id = 7;
  project_id = 1;
  deduplication_key = text "health:5";
  trigger_type = text "HEALTH_CHECK";
  status = repairing;
  title = "down";
  autonomous_resolution = false;
  resolved_at = none;
  current_attempt_id = none;
}

abbrev action : ActionRow
action = record {
  id = 9;
  incident_id = 7;
  action_kind = text "restart_container";
  target_id = some target;
  required_consecutive_successes = 2;
  policy_decision = RecordedDecision.allow;
  status = ActionStatus.planned;
}

abbrev db : Database
db = record {
  projects = project ∷ [];
  incidents = incident ∷ [];
  actions = action ∷ [];
  attempts = [];
  deployments = [];
  health_checks = [];
  jobs = [];
  events = [];
  audits = [];
  next_id = 10;
  clock = 50;
}

abbrev run : PlanRun
run = record {
  allow_restart = some (text "true");
  docker_target = some target;
  link = link;
  request_id = 9;
  repo_owner = [];
  repo_name = [];
  vercel_project_id = none;
  has_github_metadata = false;
  provider = none;
}

abbrev steps : List WorkerStep
steps =
    execute link 7 9
    ∷ execute link 7 9
    ∷ verify true true 7 9 0
    ∷ execute link 7 9
    ∷ approve 7 "ann"
    ∷ set_paused true "ann"
    ∷ set_paused false "ann"
    ∷ plan run 7
    ∷ []

one_row : count_rows (has_id 9) db.actions ≤ 1
unfolding count_rows
one_row = omega arith

action_called_at_most_once_example :
    calls_of 9 (run_steps steps (record { db = db; restart_calls = [] })).restart_calls ≤ suc 1
action_called_at_most_once_example = action_called_at_most_once 9 steps db one_row (omega arith)

abbrev start : World
start = record { db = db; restart_calls = [] }

one_call : (process_execute link 7 9 start).1.restart_calls ≡ 9 ∷ []
unfolding run_worker nopager.Prelude.byte_len nopager.Store.Incidents.transition_incident
one_call = refl

process_execute-IsCallable_example :
    IsCallable 7 9 db × ((process_execute link 7 9 start).1.restart_calls ≡ 9 ∷ [])
unfolding run_worker
process_execute-IsCallable_example =
    process_execute-IsCallable link 7 9 start (λ e. ground (arith, one_call))
