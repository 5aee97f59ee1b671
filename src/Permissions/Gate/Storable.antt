-- ===== src/Permissions/Gate/Storable.antt =====
-- Every gate that the calls lead to can be saved: its maps are as a snapshot needs them.
use lanxin_claw.Shared.{
  ℕ, String, ◌≡◌, refl, sym, ◌⊎◌, inl, inr, Bool, false, ◌&&◌, List, [], ◌∷◌, none, arith, ◌==◌,
  eq_iff, lookup, insert, lookup-insert, IsDistinct, put_all, Bool-cases, Option-cases,
}
use lanxin_claw.States.Decision.{Decision}
use lanxin_claw.Permissions.Types.{QueueStatus, PermissionRequest, is_pending}
use lanxin_claw.Permissions.Gate.{
  Gate, enqueue, decide, apply_permission_decision, normalize_decision, is_granted, expire_loop,
  expire_pending, expire_pending_for_job, expire_pending_for_affair, of_job, revoke_for_job,
  revoke_all,
}
use lanxin_claw.Permissions.Gate.Calls.{GateCall, perform, after}
use lanxin_claw.Permissions.Gate.Snapshot.{
  PartialSnapshot, list_or_empty, by_id, IsNamed, hydrate, dump, whole, hydrate-dump,
}

module _ {V : Type 0} where
  lookup-insert_other :
      (key other : String) (value : V) (entries : List (String × V))
      → (other == key) ≡ false
      → lookup key entries ≡ none
      → lookup key (insert other value entries) ≡ none
  lookup-insert_other key other value entries differs h =
      ground (arith, lookup-insert other key value entries)

  IsDistinct-insert :
      (key : String) (value : V) (entries : List (String × V))
      → IsDistinct entries
      → IsDistinct (insert key value entries)
  unfolding insert lookup
  IsDistinct-insert key value [] d = (refl, tt)
  IsDistinct-insert key value ((name, old) ∷ rest) d = elim (Bool-cases (name == key)) [
    | inl hit ↦ rw (insert, hit) d
    | inr miss ↦
        rw (insert, miss)
          (
            lookup-insert_other name key value rest
                (ground (arith, eq_iff name key, eq_iff key name)) d.0,
            IsDistinct-insert key value rest d.1,
          )
  ]

IsNamed-insert :
    (request : PermissionRequest) (entries : List (String × PermissionRequest))
    → IsNamed entries
    → IsNamed (insert request.permission_request_id request entries)
unfolding insert
IsNamed-insert request [] named = (refl, tt)
IsNamed-insert request ((name, old) ∷ rest) named =
    elim (Bool-cases (name == request.permission_request_id)) [
      | inl hit ↦
          rw (insert, hit) (sym ((eq_iff name request.permission_request_id).0 hit), named.1)
      | inr miss ↦ rw (insert, miss) (named.0, IsNamed-insert request rest named.1)
    ]

expire_loop-IsDistinct :
    (matches : PermissionRequest → Bool) (requests : List (String × PermissionRequest))
    (statuses : List (String × QueueStatus))
    → IsDistinct statuses
    → IsDistinct (expire_loop matches requests statuses).0
expire_loop-IsDistinct matches [] statuses d = d
expire_loop-IsDistinct matches ((id, request) ∷ rest) statuses d =
    elim (Bool-cases (matches request && is_pending (lookup id statuses))) [
      | inl hit ↦ rw hit (
          expire_loop-IsDistinct matches rest (insert id QueueStatus.expired statuses)
            (IsDistinct-insert id QueueStatus.expired statuses d))
      | inr miss ↦ rw miss (expire_loop-IsDistinct matches rest statuses d)
    ]

record IsStorable (g : Gate) : Type 0 where
  named : IsNamed g.requests
  requests : IsDistinct g.requests
  statuses : IsDistinct g.queue_status

IsStorable-same :
    {g g' : Gate}
    → IsStorable g
    → g'.requests ≡ g.requests
    → g'.queue_status ≡ g.queue_status
    → IsStorable g'
IsStorable-same t r q = record {
  named = rw r t.named;
  requests = rw r t.requests;
  statuses = rw q t.statuses;
}

enqueue-IsStorable :
    (request : PermissionRequest) (g : Gate) → IsStorable g → IsStorable (enqueue request g).0
unfolding enqueue
enqueue-IsStorable request g t =
    elim (Option-cases (lookup request.permission_request_id g.requests)) [
      | inr (old, e) ↦ rw (e, enqueue) t
      | inl fresh ↦
          rw (fresh, enqueue)
            (record {
              named = IsNamed-insert request g.requests t.named;
              requests =
                  IsDistinct-insert request.permission_request_id request g.requests t.requests;
              statuses =
                  IsDistinct-insert request.permission_request_id QueueStatus.pending g.queue_status
                    t.statuses;
            })
    ]

module _ (random : ℕ → String) where
  pub apply-status :
      (request : PermissionRequest) (d : Decision) (at : String) (g : Gate)
      → let g' = (apply_permission_decision random request d at g).0 in
        (g'.requests ≡ g.requests)
        × ((g'.queue_status ≡ g.queue_status)
            ⊎ (g'.queue_status
                ≡ insert request.permission_request_id QueueStatus.decided g.queue_status))
  unfolding apply_permission_decision
  apply-status request d at g = ground arith

  apply-IsStorable :
      (request : PermissionRequest) (d : Decision) (at : String) (g : Gate)
      → IsStorable g
      → IsStorable (apply_permission_decision random request d at g).0
  apply-IsStorable request d at g t =
      let (requests, statuses) = apply-status request d at g in
      elim statuses [
        | inl kept ↦ IsStorable-same t requests kept
        | inr written ↦ record {
          named = rw requests t.named;
          requests = rw requests t.requests;
          statuses = rw written (
              IsDistinct-insert request.permission_request_id QueueStatus.decided g.queue_status
                t.statuses);
        }
      ]

  decide-IsStorable :
      (id decision at : String) (g : Gate)
      → IsStorable g
      → IsStorable (decide random id decision at g).0
  unfolding decide
  decide-IsStorable id decision at g t = elim (Option-cases (lookup id g.requests)) [
    | inl missing ↦ rw (missing, decide) t
    | inr (request, found) ↦
        rw (found, decide)
          (IsStorable-same (apply-IsStorable request (normalize_decision decision) at g t) refl
            refl)
  ]

pub is_granted-kept :
    (job_id permission_id : String) (g : Gate)
    → ((is_granted job_id permission_id g).0.requests ≡ g.requests)
      × ((is_granted job_id permission_id g).0.queue_status ≡ g.queue_status)
unfolding is_granted
is_granted-kept job_id permission_id g = ground arith

pub expire_pending-fields :
    (matches : PermissionRequest → Bool) (g : Gate)
    → ((expire_pending matches g).0.requests ≡ g.requests)
      × ((expire_pending matches g).0.queue_status
          ≡ (expire_loop matches g.requests g.queue_status).0)
unfolding expire_pending
expire_pending-fields matches g = ground arith

expire_pending-IsStorable :
    (matches : PermissionRequest → Bool) (g : Gate)
    → IsStorable g
    → IsStorable (expire_pending matches g).0
expire_pending-IsStorable matches g t =
    let (requests, statuses) = expire_pending-fields matches g in
    record {
      named = rw requests t.named;
      requests = rw requests t.requests;
      statuses = rw statuses (expire_loop-IsDistinct matches g.requests g.queue_status t.statuses);
    }

put_all-IsDistinct :
    {V : Type 0} (entries new : List (String × V))
    → IsDistinct entries
    → IsDistinct (put_all entries new)
put_all-IsDistinct entries [] d = d
put_all-IsDistinct entries ((key, value) ∷ rest) d =
    put_all-IsDistinct (insert key value entries) rest (IsDistinct-insert key value entries d)

put_all-IsNamed :
    (entries : List (String × PermissionRequest)) (requests : List PermissionRequest)
    → IsNamed entries
    → IsNamed (put_all entries (by_id requests))
put_all-IsNamed entries [] named = named
put_all-IsNamed entries (request ∷ rest) named =
    put_all-IsNamed (insert request.permission_request_id request entries) rest
      (IsNamed-insert request entries named)

restore-IsStorable : (saved : PartialSnapshot) (g : Gate) → IsStorable (hydrate saved g)
unfolding hydrate
restore-IsStorable saved g = record {
  named = put_all-IsNamed [] (list_or_empty saved.requests) tt;
  requests = put_all-IsDistinct [] (by_id (list_or_empty saved.requests)) tt;
  statuses = put_all-IsDistinct [] (list_or_empty saved.queue_status) tt;
}

perform-IsStorable :
    (random : ℕ → String) (call : GateCall) (g : Gate)
    → IsStorable g
    → IsStorable (perform random call g)
unfolding perform expire_pending_for_job expire_pending_for_affair revoke_for_job revoke_all
perform-IsStorable random (GateCall.put request) g t = enqueue-IsStorable request g t
perform-IsStorable random (GateCall.answer id decision at) g t =
    decide-IsStorable random id decision at g t
perform-IsStorable random (GateCall.check job_id permission_id) g t =
    let (requests, statuses) = is_granted-kept job_id permission_id g in
    IsStorable-same t requests statuses
perform-IsStorable random (GateCall.expire_job job_id) g t = expire_pending-IsStorable _ g t
perform-IsStorable random (GateCall.expire_affair affair_id) g t = expire_pending-IsStorable _ g t
perform-IsStorable random (GateCall.revoke_job job_id) g t =
    IsStorable-same (expire_pending-IsStorable (of_job job_id) g t) refl refl
perform-IsStorable random GateCall.revoke_every g t = record {
  named = tt;
  requests = tt;
  statuses = tt;
}
perform-IsStorable random (GateCall.restore saved) g t = restore-IsStorable saved g

after-IsStorable : (random : ℕ → String) (calls : List GateCall) → IsStorable (after random calls)
unfolding after
after-IsStorable random [] = record { named = tt; requests = tt; statuses = tt }
after-IsStorable random (call ∷ calls) =
    perform-IsStorable random call (after random calls) (after-IsStorable random calls)

-- Whatever calls a gate took, its snapshot brings all of it back: a gate that takes the snapshot
-- has the same requests, statuses, grants and number of grants, and keeps its own callback.
pub after-hydrate-dump :
    (random : ℕ → String) (calls : List GateCall) (other : Gate)
    → hydrate (whole (dump (after random calls))) other
      ≡ record (after random calls) { on_change = other.on_change; changes = other.changes }
after-hydrate-dump random calls other =
    let t = after-IsStorable random calls in
    hydrate-dump (after random calls) other t.named t.requests t.statuses
