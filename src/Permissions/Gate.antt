-- ===== src/Permissions/Gate.antt =====
-- apps/companion/src/permissions/gate/permission-gate.ts, apply-decision.ts and projection/: the
-- state of a `PermissionGate` and its methods. A method returns the new state and its result.
-- `changes` counts the calls of the registered change callback. `random` stands for the random part
-- of the grant id with a given number. The calling order of loops is the order of the maps.
pub mod Grants
pub mod Queue
pub mod Calls
pub mod Approval
pub mod Traces
pub mod Snapshot
pub mod Storable
pub mod Decided
mod Tests
use lanxin_claw.Shared.{
  ℕ, ◌+◌, String, Bool, true, false, not, ◌&&◌, List, [], ◌∷◌, ◌++◌, map, Option, none, some,
  if◌then◌else◌, ◌==◌, lookup, insert, has, filter, all, any, length, truthy, is_some,
}
use lanxin_claw.States.Decision.{
  Decision, DecisionEffect, effect_of_permission_decision, parse_permission_decision,
}
use lanxin_claw.Permissions.Policy.{is_allowed_by_default}
use lanxin_claw.Permissions.Types.{
  QueueStatus, GrantScope, PermissionRequest, GrantId, Grant, DecisionResult, is_pending,
  is_decided,
}

pub record Gate : Type 0 where
  pub requests : List (String × PermissionRequest)
  pub queue_status : List (String × QueueStatus)
  pub grants : List Grant
  pub grant_seq : ℕ
  pub on_change : Bool
  pub changes : ℕ

abbrev pub new_gate : Gate
new_gate = record {
  requests = [];
  queue_status = [];
  grants = [];
  grant_seq = 0;
  on_change = false;
  changes = 0;
}

unfoldable pub set_on_change : Bool → Gate → Gate
set_on_change present g = record g { on_change = present }

-- `this.#onChange?.()`.
abbrev pub notify : Gate → Gate
notify g = record g { changes = if g.on_change then g.changes + 1 else g.changes }

-- The result of `enqueue`: the error code, if any.
unfoldable pub enqueue : PermissionRequest → Gate → Gate × Option String
enqueue request g =
    let id = request.permission_request_id in
    if has id g.requests then (g, some "permission_duplicate") else (
      notify (record g {
        requests = insert id request g.requests;
        queue_status = insert id QueueStatus.pending g.queue_status;
      }),
      none,
    )

-- The loop over `requestedPermissions`: one grant each, with the next number.
abbrev pub push_grants :
    (ℕ → String) → PermissionRequest → GrantScope → String → List String → ℕ → List Grant
push_grants random request scope at [] seq = []
push_grants random request scope at (permission ∷ rest) seq =
    record {
      grant_id = record { seq = seq + 1; random = random (seq + 1) };
      permission_request_id = request.permission_request_id;
      job_id = request.job_id;
      permission_id = permission;
      scope = scope;
      active = true;
      granted_at = at;
    }
    ∷ push_grants random request scope at rest (seq + 1)

abbrev pub accepted_result : Decision → String → Bool → Bool → DecisionResult
accepted_result decision at blocked clarify = record {
  ok = true;
  code = none;
  decision = some decision;
  decided_at = some at;
  action_blocked = blocked;
  needs_clarification = clarify;
}

abbrev pub refused_result : String → DecisionResult
refused_result code = record {
  ok = false;
  code = some code;
  decision = none;
  decided_at = none;
  action_blocked = true;
  needs_clarification = false;
}

abbrev grant_all : (ℕ → String) → PermissionRequest → GrantScope → String → Gate → Gate
grant_all random request scope at g = record g {
  grants =
      g.grants ++ push_grants random request scope at request.requested_permissions g.grant_seq;
  grant_seq = g.grant_seq + length request.requested_permissions;
}

abbrev effect_on :
    (ℕ → String)
    → PermissionRequest
    → Decision
    → String
    → DecisionEffect
    → Gate
    → Gate × DecisionResult
effect_on random request decision at DecisionEffect.deny_action g =
    (g, accepted_result decision at true false)
effect_on random request decision at DecisionEffect.request_clarification g =
    (g, accepted_result decision at true true)
effect_on random request decision at DecisionEffect.grant_once g =
    (grant_all random request GrantScope.once at g, accepted_result decision at false false)
effect_on random request decision at DecisionEffect.grant_for_job g =
    (grant_all random request GrantScope.job at g, accepted_result decision at false false)

unfoldable pub apply_permission_decision :
    (ℕ → String) → PermissionRequest → Decision → String → Gate → Gate × DecisionResult
apply_permission_decision random request decision at g =
    let id = request.permission_request_id in
    if not (is_pending (lookup id g.queue_status))
    then (g, refused_result "permission_not_pending")
    else effect_on random request decision at (effect_of_permission_decision decision)
        (record g { queue_status = insert id QueueStatus.decided g.queue_status })

-- An unknown decision is a refusal.
unfoldable pub normalize_decision : String → Decision
unfolding parse_permission_decision
normalize_decision decision = elim (parse_permission_decision decision) [
  | some known ↦ known
  | none ↦ Decision.deny
]

unfoldable pub decide : (ℕ → String) → String → String → String → Gate → Gate × DecisionResult
decide random id decision at g = elim (lookup id g.requests) [
  | none ↦ (g, refused_result "permission_not_found")
  | some request ↦
      let (g', result) =
        apply_permission_decision random request (normalize_decision decision) at g in
      (notify g', result)
]

abbrev pub get_request : String → Gate → Option PermissionRequest
get_request id g = lookup id g.requests

abbrev pub get_queue_status : String → Gate → Option QueueStatus
get_queue_status id g = lookup id g.queue_status

-- `g.active && g.jobId === jobId && g.permissionId === permissionId`.
abbrev pub grant_fits : String → String → Grant → Bool
grant_fits job_id permission_id grant =
    grant.active && grant.job_id == job_id && grant.permission_id == permission_id

-- The grant at the found index is used up if it is for one use.
abbrev pub spend : Grant → Grant
spend grant = elim grant.scope [
  | GrantScope.once ↦ record grant { active = false }
  | GrantScope.job ↦ grant
]

-- `none` where no grant fits; otherwise the new list, and whether a grant was used up.
abbrev pub use_grant : String → String → List Grant → Option (List Grant × Bool)
use_grant job_id permission_id [] = none
use_grant job_id permission_id (grant ∷ rest) =
    let later = use_grant job_id permission_id rest in
    if grant_fits job_id permission_id grant
    then some
        (spend grant ∷ rest, elim grant.scope [ GrantScope.once ↦ true | GrantScope.job ↦ false ])
    else elim later [ none ↦ none | some (rest', spent) ↦ some (grant ∷ rest', spent) ]

unfoldable pub is_granted : String → String → Gate → Gate × Bool
is_granted job_id permission_id g =
    if is_allowed_by_default permission_id
    then (g, true)
    else elim (use_grant job_id permission_id g.grants) [
      | none ↦ (g, false)
      | some (grants, spent) ↦ (if spent then notify (record g { grants = grants }) else g, true)
    ]

unfoldable pub has_grant : String → String → Gate → Bool
has_grant job_id permission_id g =
    if is_allowed_by_default permission_id
    then true
    else any (grant_fits job_id permission_id) g.grants

-- The loop of `expirePendingForJob` and `expirePendingForAffair`: the new states and the ids.
abbrev pub expire_loop :
    (PermissionRequest → Bool)
    → List (String × PermissionRequest)
    → List (String × QueueStatus)
    → List (String × QueueStatus) × List String
expire_loop matches [] statuses = (statuses, [])
expire_loop matches ((id, request) ∷ rest) statuses =
    let hit = matches request && is_pending (lookup id statuses) in
    let (statuses', ids) =
      expire_loop matches rest (if hit then insert id QueueStatus.expired statuses else statuses) in
    (statuses', if hit then id ∷ ids else ids)

unfoldable pub expire_pending : (PermissionRequest → Bool) → Gate → Gate × List String
expire_pending matches g =
    let (statuses, expired) = expire_loop matches g.requests g.queue_status in
    let g' = record g { queue_status = statuses } in
    (elim expired [ [] ↦ g' | _ ∷ _ ↦ notify g' ], expired)

abbrev pub of_job : String → PermissionRequest → Bool
of_job job_id request = request.job_id == job_id

abbrev pub of_affair : String → PermissionRequest → Bool
of_affair affair_id request = elim request.affair_id [ none ↦ false | some a ↦ a == affair_id ]

unfoldable pub expire_pending_for_job : String → Gate → Gate × List String
expire_pending_for_job job_id g = expire_pending (of_job job_id) g

unfoldable pub expire_pending_for_affair : String → Gate → Gate × List String
expire_pending_for_affair affair_id g = expire_pending (of_affair affair_id) g

unfoldable pub clear_pending_for_job : String → Gate → Gate × List String
clear_pending_for_job job_id g = expire_pending_for_job job_id g

unfoldable pub revoke_for_job : String → Gate → Gate
revoke_for_job job_id g =
    let g' = (expire_pending_for_job job_id g).0 in
    notify (record g' { grants = filter (λ grant. not (grant.job_id == job_id)) g'.grants })

unfoldable pub revoke_all : Gate → Gate
revoke_all g = notify (record g { requests = []; queue_status = []; grants = [] })

-- The ids of the entries that pass a test.
abbrev pub select_ids :
    (String → PermissionRequest → Bool) → List (String × PermissionRequest) → List String
select_ids test [] = []
select_ids test ((id, request) ∷ rest) =
    let later = select_ids test rest in if test id request then id ∷ later else later

unfoldable pub pending_request_ids : (PermissionRequest → Bool) → Gate → List String
pending_request_ids matches g =
    select_ids (λ id request. is_pending (lookup id g.queue_status) && matches request) g.requests

unfoldable pub has_pending_for_job : String → Gate → Bool
has_pending_for_job job_id g = elim (pending_request_ids (of_job job_id) g) [
  | [] ↦ false
  | _ ∷ _ ↦ true
]

unfoldable pub list_decided_grantable_request_ids : Gate → List String
list_decided_grantable_request_ids g =
    select_ids
      (λ id request.
        is_decided (lookup id g.queue_status)
        && truthy (some request.job_id)
        && all (λ permission. has_grant request.job_id permission g) request.requested_permissions)
      g.requests
