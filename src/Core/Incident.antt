-- ===== src/Core/Incident.antt =====
-- crates/nopager-core/src/lib.rs: `IncidentState`, `UiIncidentState`, `Incident` and its `transition`.
pub mod Reach
use nopager.Prelude.{
  ◌≡◌, ◌↔◌, arith, ◌==◌, ℕ, Bool, true, false, Text, Result, ok, err, if◌then◌else◌,
}

pub data IncidentState : Type 0 where
  opened collecting_context diagnosing planning repairing testing preview_deploying
        verifying_preview waiting_approval production_deploying verifying_production rolling_back
        rolled_back resolved failed escalated cancelled ignored duplicate paused :
      IncidentState

pub data UiIncidentState : Type 0 where
  opened diagnosing repairing waiting_approval resolved human_needed paused : UiIncidentState

-- The discriminants: the derived `==` compares them.
abbrev pub state_index : IncidentState → ℕ
state_index IncidentState.opened = 0
state_index collecting_context = 1
state_index IncidentState.diagnosing = 2
state_index planning = 3
state_index IncidentState.repairing = 4
state_index testing = 5
state_index preview_deploying = 6
state_index verifying_preview = 7
state_index IncidentState.waiting_approval = 8
state_index production_deploying = 9
state_index verifying_production = 10
state_index rolling_back = 11
state_index rolled_back = 12
state_index IncidentState.resolved = 13
state_index failed = 14
state_index escalated = 15
state_index cancelled = 16
state_index ignored = 17
state_index duplicate = 18
state_index IncidentState.paused = 19

abbrev pub state_eq : IncidentState → IncidentState → Bool
state_eq s t = state_index s == state_index t

pub state_eq_iff : (s t : IncidentState) → (state_eq s t ≡ true) ↔ (s ≡ t)
state_eq_iff s t = ground arith

unfoldable pub ui_projection : IncidentState → UiIncidentState
ui_projection IncidentState.opened = UiIncidentState.opened
ui_projection collecting_context = UiIncidentState.opened
ui_projection IncidentState.diagnosing = UiIncidentState.diagnosing
ui_projection planning = UiIncidentState.diagnosing
ui_projection IncidentState.repairing = UiIncidentState.repairing
ui_projection testing = UiIncidentState.repairing
ui_projection preview_deploying = UiIncidentState.repairing
ui_projection verifying_preview = UiIncidentState.repairing
ui_projection production_deploying = UiIncidentState.repairing
ui_projection verifying_production = UiIncidentState.repairing
ui_projection rolling_back = UiIncidentState.repairing
ui_projection IncidentState.waiting_approval = UiIncidentState.waiting_approval
ui_projection IncidentState.resolved = UiIncidentState.resolved
ui_projection rolled_back = UiIncidentState.resolved
ui_projection cancelled = UiIncidentState.resolved
ui_projection failed = human_needed
ui_projection escalated = human_needed
ui_projection IncidentState.paused = UiIncidentState.paused
ui_projection ignored = UiIncidentState.resolved
ui_projection duplicate = UiIncidentState.resolved

unfoldable pub can_transition_to : IncidentState → IncidentState → Bool
can_transition_to IncidentState.opened collecting_context = true
can_transition_to collecting_context IncidentState.diagnosing = true
can_transition_to IncidentState.diagnosing planning = true
can_transition_to planning IncidentState.repairing = true
can_transition_to planning IncidentState.waiting_approval = true
can_transition_to IncidentState.repairing testing = true
can_transition_to IncidentState.repairing verifying_production = true
can_transition_to testing IncidentState.repairing = true
can_transition_to testing preview_deploying = true
can_transition_to preview_deploying verifying_preview = true
can_transition_to verifying_preview IncidentState.repairing = true
can_transition_to verifying_preview IncidentState.waiting_approval = true
can_transition_to verifying_preview production_deploying = true
can_transition_to IncidentState.waiting_approval IncidentState.repairing = true
can_transition_to IncidentState.waiting_approval production_deploying = true
can_transition_to production_deploying verifying_production = true
can_transition_to verifying_production IncidentState.resolved = true
can_transition_to verifying_production rolling_back = true
can_transition_to rolling_back rolled_back = true
can_transition_to rolled_back IncidentState.resolved = true
can_transition_to _ escalated = true
can_transition_to _ failed = true
can_transition_to _ cancelled = true
can_transition_to _ IncidentState.paused = true
can_transition_to IncidentState.paused collecting_context = true
can_transition_to _ _ = false

pub record Incident : Type 0 where
  pub id : ℕ  -- Uuid
  pub project_id : ℕ  -- Uuid
  pub title : Text
  pub state : IncidentState
  pub repair_attempts : ℕ  -- u8

pub record TransitionError : Type 0 where
  pub from : IncidentState
  pub to : IncidentState

-- `&mut self`: the new incident; on an error the caller keeps the old one.
unfoldable pub transition : Incident → IncidentState → Result TransitionError Incident
transition i next =
    if can_transition_to i.state next
    then ok (record i { state = next })
    else err (record { from = i.state; to = next })
