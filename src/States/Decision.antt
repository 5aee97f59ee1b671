-- ===== src/States/Decision.antt =====
-- packages/protocol/src/states/permission/decision.ts: what the user may decide on a permission.
use lanxin_claw.Shared.{String, Option, none, some, if◌then◌else◌, ◌==◌}

pub data Decision : Type 0 where
  allow_once allow_for_job deny require_more_context : Decision

pub data DecisionEffect : Type 0 where
  grant_once grant_for_job deny_action request_clarification : DecisionEffect

-- `DECISION_EFFECT`, and `effectOfPermissionDecision` on a known decision.
abbrev pub effect_of_permission_decision : Decision → DecisionEffect
effect_of_permission_decision Decision.allow_once = DecisionEffect.grant_once
effect_of_permission_decision Decision.allow_for_job = DecisionEffect.grant_for_job
effect_of_permission_decision Decision.deny = DecisionEffect.deny_action
effect_of_permission_decision Decision.require_more_context = DecisionEffect.request_clarification

-- `isPermissionDecision`, with the decision that the text names.
unfoldable pub parse_permission_decision : String → Option Decision
parse_permission_decision s =
    if s == "allow_once"
    then some Decision.allow_once
    else if s == "allow_for_job"
    then some Decision.allow_for_job
    else if s == "deny"
    then some Decision.deny
    else if s == "require_more_context"
    then some Decision.require_more_context
    else none
