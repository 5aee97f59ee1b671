-- ===== src/Permissions/Gate/Snapshot.antt =====
-- apps/companion/src/permissions/gate/persistence/snapshot.ts and projection/: what is saved of the
-- gate and how it comes back, and what of it is shown and sent.
use lanxin_claw.Shared.{
  ℕ, String, ◌≡◌, refl, ap, ◌∙◌, not, List, [], ◌∷◌, Option, none, some, arith, if◌then◌else◌,
  lookup, from_entries, IsDistinct, from_entries-IsDistinct, truthy,
}
use lanxin_claw.States.Decision.{Decision}
use lanxin_claw.Permissions.Types.{
  QueueStatus, Requester, Risk, PermissionRequest, Grant, is_pending,
}
use lanxin_claw.Permissions.Gate.{Gate}

pub record PermissionGateSnapshot : Type 0 where
  pub requests : List PermissionRequest
  pub queue_status : List (String × QueueStatus)
  pub grants : List Grant
  pub grant_seq : ℕ

-- `Partial<PermissionGateSnapshot>`.
pub record PartialSnapshot : Type 0 where
  pub requests : Option (List PermissionRequest)
  pub queue_status : Option (List (String × QueueStatus))
  pub grants : Option (List Grant)
  pub grant_seq : Option ℕ

abbrev pub values : List (String × PermissionRequest) → List PermissionRequest
values [] = []
values ((id, request) ∷ rest) = request ∷ values rest

unfoldable pub dump : Gate → PermissionGateSnapshot
dump g = record {
  requests = values g.requests;
  queue_status = g.queue_status;
  grants = g.grants;
  grant_seq = g.grant_seq;
}

abbrev pub by_id : List PermissionRequest → List (String × PermissionRequest)
by_id [] = []
by_id (request ∷ rest) = (request.permission_request_id, request) ∷ by_id rest

abbrev pub list_or_empty {ℓ} : {A : Type ℓ} → Option (List A) → List A
list_or_empty none = []
list_or_empty (some xs) = xs

abbrev pub number_or_zero : Option ℕ → ℕ
number_or_zero none = 0
number_or_zero (some n) = n

-- `hydrate`, with `restorePermissionGate`; the callback is not called.
unfoldable pub hydrate : PartialSnapshot → Gate → Gate
hydrate saved g = record g {
  requests = from_entries (by_id (list_or_empty saved.requests));
  queue_status = from_entries (list_or_empty saved.queue_status);
  grants = list_or_empty saved.grants;
  grant_seq = number_or_zero saved.grant_seq;
}

abbrev pub whole : PermissionGateSnapshot → PartialSnapshot
whole saved = record {
  requests = some saved.requests;
  queue_status = some saved.queue_status;
  grants = some saved.grants;
  grant_seq = some saved.grant_seq;
}

-- Every request stands under its own id.
abbrev pub IsNamed : List (String × PermissionRequest) → Type 0
IsNamed [] = Unit
IsNamed ((id, request) ∷ rest) = (request.permission_request_id ≡ id) × IsNamed rest

by_id-values :
    (requests : List (String × PermissionRequest))
    → IsNamed requests
    → by_id (values requests) ≡ requests
by_id-values [] named = refl
by_id-values ((id, request) ∷ rest) named = ground (arith, by_id-values rest named.1, named.0)

-- What was saved comes back: a gate whose requests stand under their own ids, no id twice, gives a
-- snapshot from which any other gate takes the same requests, statuses, grants and number.
pub hydrate-dump :
    (g other : Gate)
    → IsNamed g.requests
    → IsDistinct g.requests
    → IsDistinct g.queue_status
    → hydrate (whole (dump g)) other
      ≡ record g { on_change = other.on_change; changes = other.changes }
unfolding hydrate dump
hydrate-dump g other named requests statuses =
    let r : from_entries (by_id (values g.requests)) ≡ g.requests =
      ap from_entries (by_id-values g.requests named)
      ∙ from_entries-IsDistinct g.requests requests in
    cc (r, from_entries-IsDistinct g.queue_status statuses)

-- `projectPendingCards` of projection/cards.ts; the card's text of the scope is kept as the list of
-- permissions and the root.
pub record PendingCard : Type 0 where
  pub permission_request_id : String
  pub requester : Requester
  pub affair_id : Option String
  pub job_id : String
  pub reason : String
  pub risk : Risk
  pub permissions : List String
  pub root : Option String
  pub deny_consequence : String
  pub available_decisions : List Decision

abbrev pub all_decisions : List Decision
all_decisions =
    Decision.allow_once ∷ Decision.allow_for_job ∷ Decision.deny ∷ Decision.require_more_context
    ∷ []

abbrev pub card_of : PermissionRequest → PendingCard
card_of request = record {
  permission_request_id = request.permission_request_id;
  requester = request.requester;
  affair_id = request.affair_id;
  job_id = request.job_id;
  reason = request.reason;
  risk = request.risk;
  permissions = request.requested_permissions;
  root =
      if truthy request.proposed_scope.workspace_root
      then request.proposed_scope.workspace_root
      else none;
  deny_consequence = request.deny_consequence;
  available_decisions = all_decisions;
}

abbrev pub project_pending_cards :
    List (String × PermissionRequest) → List (String × QueueStatus) → List PendingCard
project_pending_cards requests [] = []
project_pending_cards requests ((id, status) ∷ rest) =
    let later = project_pending_cards requests rest in
    if not (is_pending (some status))
    then later
    else elim (lookup id requests) [ none ↦ later | some request ↦ card_of request ∷ later ]

-- `listPendingCards`.
unfoldable pub list_pending_cards : Gate → List PendingCard
list_pending_cards g = project_pending_cards g.requests g.queue_status
