-- ===== src/Policy/Laws.antt =====
-- When the policy allows, asks for approval and blocks: crates/nopager-policy/src/lib.rs.
use nopager.Prelude.{true, false, ◌≡◌, ◌≢◌, ◌↔◌, ◌⊎◌, arith}
use nopager.Policy.{
  autopilot_experimental, ActionRisk, low, medium, allow, block, PolicyContext,
  OperationsPolicyContext, decide, decide_operations,
}

-- All that must hold for a deployment recovery to run without a person.
pub record Unattended (risk : ActionRisk) (c : PolicyContext) : Type 0 where
  pub low_risk : risk ≡ low
  pub autopilot : c.mode ≡ autopilot_experimental
  pub not_killed : c.kill_switch_active ≡ false
  pub verified : c.preview_verified ≡ true
  pub reversible : c.reversible ≡ true

-- `decide` allows exactly what is of low risk, in autopilot, with the Kill Switch off, with a
-- verified preview, and reversible.
pub decide-allow_iff :
    (risk : ActionRisk) (c : PolicyContext) → (decide risk c ≡ allow) ↔ Unattended risk c
unfolding decide
decide-allow_iff risk c = (λ h. ground arith, λ h. ground arith)

-- All the facts that a mutating production operation needs before any decision but `block`.
pub record Permitted (risk : ActionRisk) (c : OperationsPolicyContext) : Type 0 where
  pub bounded_risk : (risk ≡ low) ⊎ (risk ≡ medium)
  pub not_killed : c.kill_switch_active ≡ false
  pub target : c.target_configured ≡ true
  pub enabled : c.action_enabled ≡ true
  pub verification : c.verification_configured ≡ true
  pub cooled : c.cooldown_clear ≡ true

-- A mutating operation is not blocked exactly when its risk is low or medium, the Kill Switch is
-- off, the target, the action and the verification are configured, and the cooldown is over.
pub decide_operations-unblocked_iff :
    (risk : ActionRisk) (c : OperationsPolicyContext)
    → (decide_operations risk true c ≢ block) ↔ Permitted risk c
unfolding decide_operations
decide_operations-unblocked_iff risk c = (λ h. ground arith, λ h. ground arith)
