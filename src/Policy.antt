-- ===== src/Policy.antt =====
-- crates/nopager-policy/src/lib.rs: the deterministic safety policy of both subsystems.
pub mod Laws
mod Tests
use nopager.Prelude.{Bool, true, false, not, ◌||◌, if◌then◌else◌}

pub data SafetyMode : Type 0 where
  safe autopilot_experimental : SafetyMode

pub data ActionRisk : Type 0 where
  low medium high prohibited : ActionRisk

pub data PolicyDecision : Type 0 where
  allow require_approval block : PolicyDecision

pub record PolicyContext : Type 0 where
  pub mode : SafetyMode
  pub kill_switch_active : Bool
  pub preview_verified : Bool
  pub reversible : Bool

abbrev pub is_high_or_prohibited : ActionRisk → Bool
is_high_or_prohibited high = true
is_high_or_prohibited prohibited = true
is_high_or_prohibited _ = false

-- the final `match (context.mode, risk)` of `decide`
decide_by_mode : SafetyMode → ActionRisk → PolicyDecision
decide_by_mode safe _ = require_approval
decide_by_mode _ medium = require_approval
decide_by_mode autopilot_experimental low = allow
decide_by_mode _ high = block
decide_by_mode _ prohibited = block

unfoldable pub decide : ActionRisk → PolicyContext → PolicyDecision
unfolding decide_by_mode
decide risk context =
    if context.kill_switch_active || is_high_or_prohibited risk
    then block
    else if not context.preview_verified
    then block
    else if not context.reversible
    then require_approval
    else decide_by_mode context.mode risk

pub record OperationsPolicyContext : Type 0 where
  pub mode : SafetyMode
  pub kill_switch_active : Bool
  pub target_configured : Bool
  pub action_enabled : Bool
  pub verification_configured : Bool
  pub cooldown_clear : Bool

-- the final `match (context.mode, risk)` of `decide_operations`
decide_operations_by_mode : SafetyMode → ActionRisk → PolicyDecision
decide_operations_by_mode safe _ = require_approval
decide_operations_by_mode autopilot_experimental low = allow
decide_operations_by_mode autopilot_experimental medium = require_approval
decide_operations_by_mode _ high = block
decide_operations_by_mode _ prohibited = block

unfoldable pub decide_operations : ActionRisk → Bool → OperationsPolicyContext → PolicyDecision
unfolding decide_operations_by_mode
decide_operations risk mutating context =
    if not mutating
    then allow
    else if context.kill_switch_active
        || not context.target_configured
        || not context.action_enabled
        || not context.verification_configured
        || not context.cooldown_clear
        || is_high_or_prohibited risk
    then block
    else decide_operations_by_mode context.mode risk
