-- ===== src/Policy/Tests.antt =====
-- Witnesses for the laws of the policy (crates/nopager-policy/src/lib.rs).
use nopager.Prelude.{true, false, ◌≢◌, ◌↔◌}
use nopager.Policy.{
  safe, autopilot_experimental, medium, block, PolicyContext, OperationsPolicyContext,
  decide_operations,
}
use nopager.Policy.Laws.{Permitted, decide_operations-unblocked_iff}

abbrev deployment : PolicyContext
deployment = record {
  mode = autopilot_experimental;
  kill_switch_active = false;
  preview_verified = true;
  reversible = true;
}

abbrev operation : OperationsPolicyContext
operation = record {
  mode = safe;
  kill_switch_active = false;
  target_configured = true;
  action_enabled = true;
  verification_configured = true;
  cooldown_clear = true;
}

decide_operations-unblocked_iff_example :
    (decide_operations medium true operation ≢ block) ↔ Permitted medium operation
decide_operations-unblocked_iff_example = decide_operations-unblocked_iff medium operation
