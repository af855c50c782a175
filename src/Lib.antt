-- ===== src/Lib.antt =====
-- NoPager watches a production service, opens an incident when it goes down, lets a model choose one of
-- a few bounded operations, and runs it under a deterministic policy. This library models the core that
-- decides and mutates: what may be done to production, how often, and what is recorded about it.
--
-- The parts, from the outside in:
--
-- * Monitor (crates/nopager-monitor): `Debouncer` is `HealthDebouncer`, `Address` the checks of health
--   URLs and resolved addresses against private ranges, `Signal` the keys under which signals meet.
-- * Core (crates/nopager-core): `Incident` is the incident state machine and its transition table,
--   `Plan` the operations plan and its validation.
-- * Decision (crates/nopager-providers/src/operations/types.rs): what is offered to the model, and the
--   check of its decision against that.
-- * Policy (crates/nopager-policy): `decide` and `decide_operations`.
-- * Store (crates/nopager-db): `Schema` has the tables as lists of rows, `Incidents` opens, moves and
--   escalates incidents, `Approval` is what an administrator decides, `Health` the health checks' rows and
--   the trigger on them, `Jobs` the queue that the worker polls, `Deployments` the repair attempts and the
--   deployments, `Protection` the Kill Switch and the safety mode, `Rows` what the statements say of each
--   other.
-- * Operations (apps/worker/src/operations_runtime.rs): `Plan` collects what the model is offered,
--   `Decide` has `process_plan`, which turns its decision into an action under the policy, `Execute` has
--   `process_execute` and `process_verify`, the jobs that run a planned container restart and check the
--   recovery. `Execute.Steps` is about sequences of these jobs and of what administrators do, and
--   `KillSwitch` about the jobs after `set_protection_paused`.
-- * Connectors (crates/nopager-connectors): `Vercel` is what vercel.rs makes of Vercel's answers,
--   `SourceCompatibility` the check that Vercel deploys the protected repository.
-- * Production (apps/worker/src/main.rs, production.rs, source_recovery.rs, and the parts of
--   legacy_pipeline.rs that they call): the jobs that change production once a repair is deployed.
--   `Discovery` finds the current production, `Site` is what one run reads and asks, `Promotion`,
--   `Durable`, `Rollback`, `Revert` and `Recovery` have the handlers, `Dispatch` chooses among them, and
--   `Baseline` is about the deployment that rollbacks restore. `Examples` are the data of the tests.
-- * HelperClient (crates/nopager-connectors/src/docker_ops.rs): the worker's side of the socket to the
--   host helper, and what each failure says about the mutation.
-- * Protocol (crates/nopager-runtime-protocol): the messages on that socket.
-- * Helper (apps/runtime-helper/src/lib.rs): the privileged helper itself. `Config` is the enrolment,
--   `Backend` the boundary to Docker and the parsing of its output, `Journal` the durable record of
--   claimed mutations, `Executor` the handling of one request.
--
-- State is passed explicitly. A transaction of the store is a function from tables to tables, or an
-- error and no change; a function of several transactions returns the tables as the last commit left
-- them. A handler of the helper takes the journal, the world of Docker and a log of the restarts asked
-- for, which no code reads. The worker's `World` is the store and a like log of the helper calls, and
-- `Site` the store and logs of what Vercel and GitHub were asked to change. What
-- runs at once in the program runs here as one sequence of whole handlers, in any order.
--
-- What is not code of this repository is a parameter: Docker (`RuntimeBackend`, any functions on any
-- world), the credential's hash, the socket (`Wire`), the length of an encoded message, the outcome of
-- file operations (`ClaimFault`, `CompleteFault`), the probes. The planning job gets the environment, the
-- helper and the model as a `PlanRun`. A production job gets what Vercel, GitHub and the health check
-- answer as a `Run`, arbitrary for each run; a deployment that is asked for twice may answer differently.
-- Ids are numbers, texts are lists of code points. Counters saturate where Rust's do: at 65535 for the
-- debouncer's `u16`, at 2147483647 for the health checks' `integer`. No definition runs on fuel: a job that polls is one run that enqueues the
-- next, with the limits of the code.
--
-- Not modelled: the HTTP of the clients of GitHub, Vercel and the model providers, the pipeline from the
-- diagnosis to the preview of a repair, the sandbox, webhooks, encryption of credentials, the web server,
-- command line and web interface, logging, JSON and the metadata columns that no decision reads.
pub mod Prelude
pub mod Connectors
pub mod Core
pub mod Policy
pub mod Protocol
pub mod Helper
pub mod HelperClient
pub mod Monitor
pub mod Store
pub mod Operations
pub mod Decision
pub mod Production
