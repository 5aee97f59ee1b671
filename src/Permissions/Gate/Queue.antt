-- ===== src/Permissions/Gate/Queue.antt =====
-- The life of a request in the queue: pending, then decided or expired; and what a revocation
-- leaves of a job.
use lanxin_claw.Shared.{
  ℕ, String, ◌≡◌, refl, ◌∙◌, inl, inr, Bool, true, false, ◌&&◌, List, [], ◌∷◌, some, arith, ◌==◌,
  eq_iff, lookup, insert, lookup-insert, lookup-insert_self, IsDistinct, any, filter, not,
  Bool-cases,
}
use lanxin_claw.States.Decision.{Decision, effect_of_permission_decision}
use lanxin_claw.Permissions.Policy.{is_allowed_by_default}
use lanxin_claw.Permissions.Types.{QueueStatus, PermissionRequest, Grant, is_pending}
use lanxin_claw.Permissions.Gate.{
  Gate, grant_fits, has_grant, decide, apply_permission_decision, effect_on, expire_pending_for_job,
  expire_pending, expire_loop, of_job, revoke_for_job, has_pending_for_job, select_ids,
  pending_request_ids,
}

-- The status of an id after the loop: an entry of a pending request that matches becomes expired.
pub lookup-expire_loop_settled :
    (matches : PermissionRequest → Bool) (requests : List (String × PermissionRequest))
    (statuses : List (String × QueueStatus)) (id : String)
    → is_pending (lookup id statuses) ≡ false
    → lookup id (expire_loop matches requests statuses).0 ≡ lookup id statuses
lookup-expire_loop_settled matches [] statuses id h = refl
lookup-expire_loop_settled matches ((j, request) ∷ rest) statuses id h =
    elim (Bool-cases (matches request && is_pending (lookup j statuses))) [
      | inr skip ↦ rw skip (lookup-expire_loop_settled matches rest statuses id h)
      | inl hit ↦
          let kept : lookup id (insert j QueueStatus.expired statuses) ≡ lookup id statuses =
            ground (arith, eq_iff j id, lookup-insert j id QueueStatus.expired statuses) in
          rw hit (
            lookup-expire_loop_settled matches rest (insert j QueueStatus.expired statuses) id
              (rw kept h)
            ∙ kept)
    ]

module _ (matches : PermissionRequest → Bool) where
  -- After the loop no listed request that matches is pending.
  select-expire_loop :
      (requests : List (String × PermissionRequest)) (statuses final : List (String × QueueStatus))
      → final ≡ (expire_loop matches requests statuses).0
      → select_ids (λ id request. is_pending (lookup id final) && matches request) requests ≡ []
  select-expire_loop [] statuses final e = refl
  select-expire_loop ((id, request) ∷ rest) statuses final e =
      elim (Bool-cases (matches request && is_pending (lookup id statuses))) [
        | inl hit ↦
            let statuses' = insert id QueueStatus.expired statuses in
            let new : is_pending (lookup id statuses') ≡ false =
              ground (arith, lookup-insert_self id QueueStatus.expired statuses) in
            let kept = lookup-expire_loop_settled matches rest statuses' id new in
            let e' : final ≡ (expire_loop matches rest statuses').0 = rw hit at e in
            let head : is_pending (lookup id final) ≡ false = rw (e', kept) new in
            rw head (select-expire_loop rest statuses' final e')
        | inr skip ↦
            let e' : final ≡ (expire_loop matches rest statuses).0 = rw skip at e in
            let kept = lookup-expire_loop_settled matches rest statuses id in
            ground (arith, select-expire_loop rest statuses final e', kept)
      ]

any-filter_none :
    (job_id permission_id : String) (grants : List Grant)
    → any (grant_fits job_id permission_id) (filter (λ grant. not (grant.job_id == job_id)) grants)
      ≡ false
any-filter_none job_id permission_id [] = refl
any-filter_none job_id permission_id (grant ∷ rest) =
    ground (arith, any-filter_none job_id permission_id rest)

any-filter_other :
    (revoked job_id permission_id : String) (grants : List Grant)
    → (job_id == revoked) ≡ false
    → any (grant_fits job_id permission_id) (filter (λ grant. not (grant.job_id == revoked)) grants)
      ≡ any (grant_fits job_id permission_id) grants
any-filter_other revoked job_id permission_id [] h = refl
any-filter_other revoked job_id permission_id (grant ∷ rest) h = ground (
  arith,
  eq_iff grant.job_id revoked,
  eq_iff grant.job_id job_id,
  eq_iff job_id revoked,
  any-filter_other revoked job_id permission_id rest h,
)

expire_pending-grants :
    (matches : PermissionRequest → Bool) (g : Gate) → (expire_pending matches g).0.grants ≡ g.grants
unfolding expire_pending
expire_pending-grants matches g = ground arith

expire_pending-requests :
    (matches : PermissionRequest → Bool) (g : Gate)
    → (expire_pending matches g).0.requests ≡ g.requests
unfolding expire_pending
expire_pending-requests matches g = ground arith

expire_pending-status :
    (matches : PermissionRequest → Bool) (g : Gate)
    → (expire_pending matches g).0.queue_status ≡ (expire_loop matches g.requests g.queue_status).0
unfolding expire_pending
expire_pending-status matches g = ground arith

has_pending_none :
    (job_id : String) (g : Gate)
    → pending_request_ids (of_job job_id) g ≡ []
    → has_pending_for_job job_id g ≡ false
unfolding has_pending_for_job
has_pending_none job_id g h = rw (h, has_pending_for_job) refl

revoke_for_job-pending :
    (job_id : String) (g : Gate)
    → pending_request_ids (of_job job_id) (revoke_for_job job_id g) ≡ []
unfolding revoke_for_job expire_pending_for_job pending_request_ids
revoke_for_job-pending job_id g = rw (expire_pending-requests (of_job job_id) g) (
    select-expire_loop (of_job job_id) g.requests g.queue_status
      (revoke_for_job job_id g).queue_status (expire_pending-status (of_job job_id) g))

-- After the revocation of a job it has no grant for a permission that asks for confirmation.
pub revoke_for_job-has_grant :
    (job_id permission_id : String) (g : Gate)
    → is_allowed_by_default permission_id ≡ false
    → has_grant job_id permission_id (revoke_for_job job_id g) ≡ false
unfolding revoke_for_job expire_pending_for_job has_grant
revoke_for_job-has_grant job_id permission_id g asked =
    rw asked (any-filter_none job_id permission_id (expire_pending (of_job job_id) g).0.grants)

-- After the revocation of a job it has no pending request.
pub revoke_for_job-has_pending :
    (job_id : String) (g : Gate) → has_pending_for_job job_id (revoke_for_job job_id g) ≡ false
revoke_for_job-has_pending job_id g =
    has_pending_none job_id (revoke_for_job job_id g) (revoke_for_job-pending job_id g)

-- The loop leaves the status of a request that does not match.
expire_loop-unmatched :
    (matches : PermissionRequest → Bool) (requests : List (String × PermissionRequest))
    (statuses : List (String × QueueStatus)) (id : String)
    → IsDistinct requests
    → ((request : PermissionRequest) → lookup id requests ≡ some request → matches request ≡ false)
    → lookup id (expire_loop matches requests statuses).0 ≡ lookup id statuses
unfolding lookup
expire_loop-unmatched matches [] statuses id d other = refl
expire_loop-unmatched matches ((j, request) ∷ rest) statuses id d other =
    let later : (q : PermissionRequest) → lookup id rest ≡ some q → matches q ≡ false =
      λ q e. other q (ground (arith, eq_iff j id, d.0)) in
    elim (Bool-cases (matches request && is_pending (lookup j statuses))) [
      | inr skip ↦ rw skip (expire_loop-unmatched matches rest statuses id d.1 later)
      | inl hit ↦
          let kept : lookup id (insert j QueueStatus.expired statuses) ≡ lookup id statuses =
            elim (Bool-cases (j == id)) [
              | inl same ↦ let no = other request (ground arith) in ground arith
              | inr differs ↦ ground (arith, lookup-insert j id QueueStatus.expired statuses)
            ] in
          rw hit (
            expire_loop-unmatched matches rest (insert j QueueStatus.expired statuses) id d.1 later
            ∙ kept)
    ]

-- The revocation of a job does not touch another job: it has the permissions that it had, and its
-- requests are listed as before and keep their status, pending ones too. No id may be listed twice,
-- as in every gate that the calls lead to.
pub revoke_for_job-others :
    (job_id other permission_id id : String) (request : PermissionRequest) (g : Gate)
    → IsDistinct g.requests
    → (other == job_id) ≡ false
    → lookup id g.requests ≡ some request
    → request.job_id ≡ other
    → let g' = revoke_for_job job_id g in
      (has_grant other permission_id g' ≡ has_grant other permission_id g)
      × (g'.requests ≡ g.requests)
      × (lookup id g'.queue_status ≡ lookup id g.queue_status)
unfolding revoke_for_job expire_pending_for_job has_grant
revoke_for_job-others job_id other permission_id id request g distinct differs found ours = (
  rw
      (
        expire_pending-grants (of_job job_id) g,
        any-filter_other job_id other permission_id g.grants differs,
      )
      refl,
  expire_pending-requests (of_job job_id) g,
  rw (expire_pending-status (of_job job_id) g) (
      expire_loop-unmatched (of_job job_id) g.requests g.queue_status id distinct
        (λ q e. ground (arith, ours, differs, found))),
)

effect_on-status :
    (random : ℕ → String) (request : PermissionRequest) (d : Decision) (at : String) (g : Gate)
    → (effect_on random request d at (effect_of_permission_decision d) g).0.queue_status
      ≡ g.queue_status
effect_on-status random request d at g = ground arith

effect_on-ok :
    (random : ℕ → String) (request : PermissionRequest) (d : Decision) (at : String) (g : Gate)
    → (effect_on random request d at (effect_of_permission_decision d) g).1.ok ≡ true
effect_on-ok random request d at g = ground arith

module _ (random : ℕ → String) (id decision at : String) (request : PermissionRequest) (g : Gate)
    (found : lookup id g.requests ≡ some request) (named : request.permission_request_id ≡ id) where
  pub decide_settled :
      is_pending (lookup id g.queue_status) ≡ false
      → ((decide random id decision at g).1.code ≡ some "permission_not_pending")
        × ((decide random id decision at g).0.grants ≡ g.grants)
        × ((decide random id decision at g).0.queue_status ≡ g.queue_status)
  unfolding decide apply_permission_decision
  decide_settled settled = ground arith

  pub decide_pending :
      is_pending (lookup id g.queue_status) ≡ true
      → ((decide random id decision at g).1.ok ≡ true)
        × ((decide random id decision at g).0.queue_status
            ≡ insert id QueueStatus.decided g.queue_status)
        × ((decide random id decision at g).0.requests ≡ g.requests)
  unfolding decide apply_permission_decision
  decide_pending pending = ground arith

pub decide_refused :
    (random : ℕ → String) (id decision at : String) (g : Gate)
    → (decide random id decision at g).1.code ≡ some "permission_not_pending"
    → (decide random id decision at g).1.ok ≡ false
unfolding decide apply_permission_decision
decide_refused random id decision at g h = ground arith
