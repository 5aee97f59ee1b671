-- ===== src/Permissions/Gate/Decided.antt =====
-- A request that was decided or has expired stays so.
use lanxin_claw.Shared.{String, ◌≡◌, false, some, lookup}
use lanxin_claw.Permissions.Types.{PermissionRequest, is_pending}
use lanxin_claw.Permissions.Gate.{Gate}
use lanxin_claw.Permissions.Gate.Calls.{GateCall}

-- The request is known and no longer pending.
record IsSettled (id : String) (request : PermissionRequest) (g : Gate) : Type 0 where
  found : lookup id g.requests ≡ some request
  settled : is_pending (lookup id g.queue_status) ≡ false

-- The call neither empties the gate nor restores a snapshot.
abbrev pub KeepsRequests : GateCall → Type 0
KeepsRequests GateCall.revoke_every = ⊥
KeepsRequests (GateCall.restore saved) = ⊥
KeepsRequests _ = Unit
