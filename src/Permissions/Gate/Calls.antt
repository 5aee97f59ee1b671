-- ===== src/Permissions/Gate/Calls.antt =====
-- Sequences of calls on a gate of apps/companion/src/permissions/gate.
use lanxin_claw.Shared.{ℕ, String, List, [], ◌∷◌}
use lanxin_claw.Permissions.Types.{PermissionRequest}
use lanxin_claw.Permissions.Gate.{
  Gate, new_gate, is_granted, decide, enqueue, expire_pending_for_job, expire_pending_for_affair,
  revoke_for_job, revoke_all,
}
use lanxin_claw.Permissions.Gate.Snapshot.{PartialSnapshot, hydrate}

-- A call of one of the methods that change the gate (`clearPendingForJob` is `expire_job`, `hydrate`
-- is `restore`).
pub data GateCall : Type 0 where
  put : PermissionRequest → GateCall
  answer : (id decision at : String) → GateCall
  check : (job_id permission_id : String) → GateCall
  expire_job : (job_id : String) → GateCall
  expire_affair : (affair_id : String) → GateCall
  revoke_job : (job_id : String) → GateCall
  revoke_every : GateCall
  restore : PartialSnapshot → GateCall

module _ (random : ℕ → String) where
  unfoldable pub perform : GateCall → Gate → Gate
  perform (GateCall.put request) g = (enqueue request g).0
  perform (GateCall.answer id decision at) g = (decide random id decision at g).0
  perform (GateCall.check job_id permission_id) g = (is_granted job_id permission_id g).0
  perform (GateCall.expire_job job_id) g = (expire_pending_for_job job_id g).0
  perform (GateCall.expire_affair affair_id) g = (expire_pending_for_affair affair_id g).0
  perform (GateCall.revoke_job job_id) g = revoke_for_job job_id g
  perform GateCall.revoke_every g = revoke_all g
  perform (GateCall.restore saved) g = hydrate saved g

  -- The gate after some calls, in their order.
  unfoldable pub performed : List GateCall → Gate → Gate
  performed [] g = g
  performed (call ∷ rest) g = performed rest (perform call g)

  -- The gate after some calls, the latest first.
  unfoldable pub after : List GateCall → Gate
  after [] = new_gate
  after (call ∷ earlier) = perform call (after earlier)
