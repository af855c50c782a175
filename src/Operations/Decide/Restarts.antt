-- ===== src/Operations/Decide/Restarts.antt =====
-- What stands behind a restart that no person approves: apps/worker/src/operations_runtime.rs.
use Prim.Native.String.{String}
use package.text.Mathlib.TextEquality.{eq_iff}
use package.text.Mathlib.Text.{◌==◌ as str_eq}
use nopager.Prelude.{
  ℕ, ◌+◌, ◌≤◌, true, false, ◌≡◌, ◌≢◌, ◌⊎◌, inl, inr, refl, sym, ◌∙◌, arith, Option, none, some, [],
  map, All, Any, any_sound, none_sound, Text, text, text_eq, eq_of_text_eq, trim,
  to_ascii_lowercase, Bool-cases, Option-cases, ok, ◌==◌,
}
use nopager.Connectors.Vercel.{is_text}
use nopager.Connectors.Vercel.Laws.{is_text-other}
use nopager.Decision.{
  OperationsActionKind, external_http, verification_index, OperationsVerificationKind,
  SelectedVerificationSignal, OperationsInput, OperationsDecision,
}
use nopager.Policy.{SafetyMode}
use nopager.Store.Schema.{Database, AuditRow}
use nopager.Store.Deployments.{IncidentWork, incident_work}
use nopager.Operations.Execute.{World}
use nopager.Operations.Plan.{
  PlanRun, env_true, configured_container_target, parse_safety_mode, operations_input,
}
use nopager.Operations.Decide.{
  is_recent_restart, restart_cooldown_clear, selects_primary_health, process_plan,
}
use nopager.Operations.Decide.Guards.{executions, process_plan-IsPlanned}

-- The row is not a successful restart of the container in the last five minutes.
abbrev pub IsNoRecentRestart : ℕ → Text → ℕ → AuditRow → Type 0
IsNoRecentRestart project target now row =
    (row.project_id ≢ project)
    ⊎ ((row.action ≢ "operations.runtime_helper.restart_container")
        ⊎ ((row.target ≢ some target) ⊎ ((row.outcome ≢ "success") ⊎ (row.created_at + 300 ≤ now))))

-- The values of an environment variable that switch it on.
abbrev pub IsOn : Text → Type 0
IsOn value =
    (value ≡ text "1") ⊎ ((value ≡ text "true") ⊎ ((value ≡ text "yes") ⊎ (value ≡ text "on")))

-- The signal is the external check of the primary health URL.
abbrev pub IsPrimaryHealth : SelectedVerificationSignal → Type 0
IsPrimaryHealth s = (s.kind ≡ external_http) × (s.source_id ≡ text "primary_https_health")

-- All that an unattended restart rests on.
pub record IsJustified (run : PlanRun) (work : IncidentWork) (db : Database) : Type 0 where
  pub model : OperationsInput → Option OperationsDecision
  pub decision : OperationsDecision
  pub is_provider : run.provider ≡ some model
  pub is_answer : model (operations_input run work) ≡ some decision
  pub is_restart : decision.action ≡ OperationsActionKind.restart_container
  pub configured : Text
  pub is_configured : run.docker_target ≡ some configured
  pub is_named : trim decision.target_id ≡ trim configured
  pub not_blank : trim configured ≢ []
  pub is_autopilot :
      (work.project.safety_mode ≡ text "autopilot_experimental")
      ⊎ (work.project.safety_mode ≡ text "autopilot-experimental")
  pub not_paused : work.project.protection_paused ≡ false
  pub switch : Text
  pub has_switch : run.allow_restart ≡ some switch
  pub is_on : IsOn (map to_ascii_lowercase (trim switch))
  pub is_verified : Any IsPrimaryHealth decision.verification_signals
  pub is_cool :
      All (IsNoRecentRestart work.incident.project_id (trim configured) db.clock) db.audits

str_eq-other : (a b : String) → str_eq a b ≡ false → a ≢ b
str_eq-other a b h e = absurd (ground (arith, (eq_iff a b).1 e))

old_row :
    (project : ℕ) (target : Text) (now : ℕ) (row : AuditRow)
    → is_recent_restart project target now row ≡ false
    → IsNoRecentRestart project target now row
old_row project target now row h = elim (Bool-cases (row.project_id == project)) [
  | inr t ↦ inl (λ e. absurd (ground arith))
  | inl t ↦ elim (Bool-cases (str_eq row.action "operations.runtime_helper.restart_container")) [
    | inr t1 ↦ inr (inl (str_eq-other row.action _ t1))
    | inl t1 ↦ elim (Bool-cases (is_text row.target target)) [
      | inr t2 ↦ inr (inr (inl (is_text-other row.target target t2)))
      | inl t2 ↦ elim (Bool-cases (str_eq row.outcome "success")) [
        | inr t3 ↦ inr (inr (inr (inl (str_eq-other row.outcome _ t3))))
        | inl t3 ↦ inr (inr (inr (inr (ground arith))))
      ]
    ]
  ]
]

clear-All :
    (project : ℕ) (target : Text) (db : Database)
    → restart_cooldown_clear project target db ≡ true
    → All (IsNoRecentRestart project target db.clock) db.audits
unfolding restart_cooldown_clear
clear-All project target db h =
    none_sound (is_recent_restart project target db.clock)
      (IsNoRecentRestart project target db.clock) (old_row project target db.clock) db.audits
      (ground arith)

external_index :
    (k : OperationsVerificationKind)
    → (verification_index k == verification_index external_http) ≡ true
    → k ≡ external_http
external_index external_http h = refl
external_index OperationsVerificationKind.external_tcp h = absurd (ground arith)
external_index OperationsVerificationKind.service_status h = absurd (ground arith)
external_index OperationsVerificationKind.container_status h = absurd (ground arith)
external_index OperationsVerificationKind.instance_health h = absurd (ground arith)
external_index OperationsVerificationKind.error_rate h = absurd (ground arith)
external_index OperationsVerificationKind.resource_pressure h = absurd (ground arith)
external_index OperationsVerificationKind.traffic_health h = absurd (ground arith)

selected :
    (decision : OperationsDecision)
    → selects_primary_health decision ≡ true
    → Any IsPrimaryHealth decision.verification_signals
unfolding selects_primary_health
selected decision h =
    any_sound _ IsPrimaryHealth
      (λ s t. (external_index s.kind (ground arith), eq_of_text_eq s.source_id _ (ground arith)))
      decision.verification_signals h

env_true-IsOn :
    (v : Option Text)
    → env_true v ≡ true
    → (value : Text) × (v ≡ some value) × IsOn (map to_ascii_lowercase (trim value))
unfolding env_true
env_true-IsOn none h = absurd (ground arith)
env_true-IsOn (some value) h = (
  value,
  refl,
  (let v = map to_ascii_lowercase (trim value) in
      elim (Bool-cases (text_eq v (text "1"))) [
        | inl t ↦ inl (eq_of_text_eq v _ t)
        | inr t ↦ elim (Bool-cases (text_eq v (text "true"))) [
          | inl t1 ↦ inr (inl (eq_of_text_eq v _ t1))
          | inr t1 ↦ elim (Bool-cases (text_eq v (text "yes"))) [
            | inl t2 ↦ inr (inr (inl (eq_of_text_eq v _ t2)))
            | inr t2 ↦ inr (inr (inr (eq_of_text_eq v _ (ground arith))))
          ]
        ]
      ]),
)

autopilot :
    (mode : Text)
    → parse_safety_mode mode ≡ some SafetyMode.autopilot_experimental
    → (mode ≡ text "autopilot_experimental") ⊎ (mode ≡ text "autopilot-experimental")
unfolding parse_safety_mode
autopilot mode h = elim (Bool-cases (text_eq mode (text "autopilot_experimental"))) [
  | inl t ↦ inl (eq_of_text_eq mode _ t)
  | inr t ↦ inr (eq_of_text_eq mode _ (ground arith))
]

container :
    (run : PlanRun) (target : Text)
    → configured_container_target run ≡ some target
    → (value : Text) × (run.docker_target ≡ some value) × (trim value ≡ target) × (trim value ≢ [])
unfolding configured_container_target
container run target h = elim (Option-cases run.docker_target) [
  | inl e ↦ absurd (ground arith)
  | inr (value, e) ↦ (value, e, ground arith, λ blank. absurd (ground arith))
]

-- The planning job puts an execution job in the queue only if the model has answered with a restart of
-- the configured container, whose id is not blank, and with the external check of the primary health URL among its verification signals; the safety mode
-- of the project is the autopilot, the project is not paused, the environment switches restarts on,
-- and no audit row tells of a successful restart of the container in the last 300 seconds.
pub process_plan-IsJustified :
    (run : PlanRun) (incident : ℕ) (w : World)
    → executions (process_plan run incident w).1.db.jobs ≢ executions w.db.jobs
    → (work : IncidentWork) × (incident_work incident w.db ≡ ok work) × IsJustified run work w.db
process_plan-IsJustified run incident w h =
    let (work, loaded, planned) = process_plan-IsPlanned run incident w h in
    let a = planned.is_autonomous in
    let (value, has_target, same, filled) = container run a.target a.is_configured in
    let (switch, has_switch, on) = env_true-IsOn run.allow_restart a.is_enabled in
    let cool = clear-All work.incident.project_id a.target w.db a.is_cool in
    (
      work,
      loaded,
      record {
        model = planned.model;
        decision = planned.decision;
        is_provider = planned.is_provider;
        is_answer = planned.is_answer;
        is_restart = planned.is_restart;
        configured = value;
        is_configured = has_target;
        is_named = a.is_named ∙ sym same;
        not_blank = filled;
        is_autopilot = autopilot work.project.safety_mode a.is_autopilot;
        not_paused = a.not_paused;
        switch = switch;
        has_switch = has_switch;
        is_on = on;
        is_verified = selected planned.decision a.is_verified;
        is_cool = rw same cool;
      },
    )
