-- ===== src/Permissions/Types.antt =====
-- apps/companion/src/permissions/gate/types.ts: requests, grants and the results of a decision.
-- A permission id is its text. A grant id `grant_<seq>_<random>` is kept as its two parts.
use lanxin_claw.Shared.{ℕ, String, Bool, true, false, List, Option}
use lanxin_claw.States.Decision.{Decision}

pub data QueueStatus : Type 0 where
  pending decided expired : QueueStatus

pub data GrantScope : Type 0 where
  once job : GrantScope

pub data Requester : Type 0 where
  zhang_boss companion openclaw_adapter : Requester

pub data Risk : Type 0 where
  low medium high : Risk

-- `ProposedScope` of packages/protocol/src/messages/payloads/session.ts.
pub record ProposedScope : Type 0 where
  pub workspace_root : Option String
  pub commands : Option (List String)
  pub network_hosts : Option (List String)

pub record PermissionRequest : Type 0 where
  pub permission_request_id : String
  pub job_id : String
  pub affair_id : Option String
  pub requester : Requester
  pub requested_permissions : List String
  pub reason : String
  pub risk : Risk
  pub proposed_scope : ProposedScope
  pub deny_consequence : String
  pub requested_at : String
  pub expires_at : Option String

pub record GrantId : Type 0 where
  pub seq : ℕ
  pub random : String

pub record Grant : Type 0 where
  pub grant_id : GrantId
  pub permission_request_id : String
  pub job_id : String
  pub permission_id : String
  pub scope : GrantScope
  pub active : Bool
  pub granted_at : String

-- `GateDecisionResult` without its human text.
pub record DecisionResult : Type 0 where
  pub ok : Bool
  pub code : Option String
  pub decision : Option Decision
  pub decided_at : Option String
  pub action_blocked : Bool
  pub needs_clarification : Bool

abbrev pub is_pending : Option QueueStatus → Bool
is_pending (Option.some QueueStatus.pending) = true
is_pending _ = false

abbrev pub is_decided : Option QueueStatus → Bool
is_decided (Option.some QueueStatus.decided) = true
is_decided _ = false
