-- ===== src/Operations/Decide/Tests.antt =====
-- Runs of the planning job and witnesses for its laws (apps/worker/src/operations_runtime.rs).
use nopager.Prelude.{
  ℕ, ◌≡◌, refl, arith, true, false, none, some, trim, [], ◌∷◌, Text, text, text_eq, ok, length,
}
use nopager.Protocol.{RuntimeRequest}
use nopager.Core.Incident.{collecting_context, can_transition_to}
use nopager.Core.Plan.{finite}
use nopager.HelperClient.{answered}
use nopager.Decision.{OperationsActionKind, external_http, OperationsDecision}
use nopager.Store.Schema.{
  Database, ProjectRow, IncidentRow, HealthRow, HealthStatus, find_row, update_rows, count_rows,
  insert_job,
}
use nopager.Store.Incidents.{transition_incident}
use nopager.Policy.{decide_operations}
use nopager.Store.Deployments.{IncidentWork, incident_work}
use nopager.Store.Protection.Laws.{is_inactive}
use nopager.Operations.Execute.{World, process_execute}
use nopager.Operations.KillSwitch.{pull, kill_switch_stops_operations}
use nopager.Operations.Plan.{PlanRun, configured_container_target, env_true, parse_safety_mode}
use nopager.Operations.Decide.{
  process_plan, plan_step, decide_plan, by_action, plan_container_restart, plan_restart, policy_of,
  persist_and_act, persist_operation_action, by_policy, enqueue_execute, selects_primary_health,
  restart_cooldown_clear,
}
use nopager.Operations.Decide.Guards.{executions}
use nopager.Operations.Decide.Restarts.{IsJustified, process_plan-IsJustified}

abbrev target : Text
target = text "aaaaaaaaaaaa"

abbrev decision : OperationsDecision
decision = record {
  summary = text "the container hangs";
  confidence = finite false 1000;
  evidence = [];
  action = OperationsActionKind.restart_container;
  target_id = target;
  escalation_reason = [];
  verification_signals =
      record { kind = external_http; source_id = text "primary_https_health" } ∷ [];
  required_consecutive_successes = 2;
  timeout_seconds = 60;
  rollback_or_fallback = text "escalate";
}

abbrev size : RuntimeRequest → ℕ
size r = length r.credential

abbrev run : PlanRun
run = record {
  allow_restart = some (text "true");
  docker_target = some target;
  link = record {
    client = ok (record { socket_path = text "/run/s"; credential = text "c"; timeout = 30 });
    encoded_len = size;
    wire = answered 300 none;
  };
  request_id = 9;
  repo_owner = [];
  repo_name = [];
  vercel_project_id = none;
  has_github_metadata = false;
  provider = some (λ _. some decision);
}

abbrev project : ProjectRow
project = record {
  id = 1;
  is_active = true;
  safety_mode = text "autopilot_experimental";
  protection_paused = false;
}

abbrev incident : IncidentRow
incident = record {
  id = 7;
  project_id = 1;
  deduplication_key = text "health:5";
  trigger_type = text "HEALTH_CHECK";
  status = collecting_context;
  title = "down";
  autonomous_resolution = false;
  resolved_at = none;
  current_attempt_id = none;
}

abbrev health : HealthRow
health = record {
  id = 3;
  project_id = 1;
  consecutive_failures = 3;
  consecutive_successes = 0;
  status = HealthStatus.down;
}

abbrev db : Database
db = record {
  projects = project ∷ [];
  incidents = incident ∷ [];
  actions = [];
  attempts = [];
  deployments = [];
  health_checks = health ∷ [];
  jobs = [];
  events = [];
  audits = [];
  next_id = 10;
  clock = 50;
}

abbrev start : World
start = record { db = db; restart_calls = [] }

one_execution :
    (executions (process_plan run 7 start).1.db.jobs ≡ 1) × (executions start.db.jobs ≡ 0)
unfolding process_plan plan_step decide_plan by_action plan_container_restart plan_restart policy_of
    persist_and_act persist_operation_action by_policy enqueue_execute selects_primary_health
    restart_cooldown_clear configured_container_target env_true parse_safety_mode incident_work
    transition_incident can_transition_to decide_operations find_row update_rows count_rows
    insert_job text_eq trim executions
one_execution = (refl, refl)

process_plan-IsJustified_example :
    (work : IncidentWork) × (incident_work 7 db ≡ ok work) × IsJustified run work db
process_plan-IsJustified_example =
    process_plan-IsJustified run 7 start λ e. let (after, before) = one_execution in omega arith

all_active : count_rows is_inactive db.projects ≡ 0
unfolding count_rows
all_active = refl

kill_switch_stops_operations_example :
    (executions (process_plan run 7 (pull "ann" start)).1.db.jobs
      ≡ executions (pull "ann" start).db.jobs)
    × ((process_execute run.link 7 9 (pull "ann" start)).1.restart_calls ≡ [])
kill_switch_stops_operations_example =
    kill_switch_stops_operations "ann" run run.link 7 9 start all_active
