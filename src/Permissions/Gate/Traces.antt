-- ===== src/Permissions/Gate/Traces.antt =====
-- Any sequence of calls on a fresh gate: where grants come from.
use mathlib.Core.Path.{subst}
use lanxin_claw.Shared.{
  ℕ, String, ◌≡◌, refl, ◌⊎◌, inl, inr, Bool, some, ◌==◌, put_all, lookup-insert, true, false, List,
  [], ◌∷◌, ◌++◌, arith, eq_iff, lookup, insert, any, All, All-append, All-filter, Memᴰ, Bool-cases,
  Option-cases,
}
use lanxin_claw.States.Decision.{Decision, effect_of_permission_decision}
use lanxin_claw.Permissions.Policy.{is_allowed_by_default}
use lanxin_claw.Permissions.Types.{QueueStatus, GrantScope, PermissionRequest, Grant, is_pending}
use lanxin_claw.Permissions.Gate.{
  Gate, push_grants, grant_fits, has_grant, decide, apply_permission_decision, normalize_decision,
  expire_pending_for_job, expire_pending_for_affair, expire_pending, effect_on, of_job,
  revoke_for_job, revoke_all,
}
use lanxin_claw.Permissions.Gate.Calls.{GateCall, perform, after}
use lanxin_claw.Permissions.Gate.Snapshot.{PartialSnapshot, by_id, list_or_empty, hydrate}
use lanxin_claw.Permissions.Gate.Approval.{
  IsAsked, IsAsked-later, IsInherited, IsAllowing, IsApproved, GrantIsApproved,
  normalize-IsAllowing, IsTraced, IsTraced-later, IsTraced-same, is_granted-IsTraced,
  enqueue-IsTraced, push_grants-approved,
}

module _ (random : ℕ → String) (calls : List GateCall) (decision at : String) (g : Gate)
    (t : IsTraced calls g) (request : PermissionRequest) (queued : IsAsked calls request) where
  allowed-IsTraced :
      (scope : GrantScope)
      → IsAllowing decision
      → All (GrantIsApproved (GateCall.answer request.permission_request_id decision at ∷ calls)) (
          g.grants ++ push_grants random request scope at request.requested_permissions g.grant_seq)
  allowed-IsTraced scope allowing = All-append _ g.grants _ (IsTraced-later _ t).approved (
      push_grants-approved random _ request scope at request.requested_permissions g.grant_seq
        λ permission listed. record {
          request = request;
          decision = decision;
          at = at;
          queued = IsAsked-later _ request queued;
          answered = Memᴰ.head refl;
          allowing = allowing;
          job = refl;
          listed = listed;
        })

  effect_on-IsTraced :
      (d : Decision)
      → normalize_decision decision ≡ d
      → IsTraced
          (GateCall.answer request.permission_request_id decision at ∷ calls)
          (effect_on random request d at (effect_of_permission_decision d) (record g {
            queue_status = insert request.permission_request_id QueueStatus.decided g.queue_status;
          })).0
  effect_on-IsTraced Decision.allow_once e =
      IsTraced-same (IsTraced-later _ t) refl
        (allowed-IsTraced GrantScope.once (normalize-IsAllowing decision (inl e)))
  effect_on-IsTraced Decision.allow_for_job e =
      IsTraced-same (IsTraced-later _ t) refl
        (allowed-IsTraced GrantScope.job (normalize-IsAllowing decision (inr e)))
  effect_on-IsTraced Decision.deny e =
      IsTraced-same (IsTraced-later _ t) refl (IsTraced-later _ t).approved
  effect_on-IsTraced Decision.require_more_context e =
      IsTraced-same (IsTraced-later _ t) refl (IsTraced-later _ t).approved

  apply-IsTraced :
      IsTraced
        (GateCall.answer request.permission_request_id decision at ∷ calls)
        (apply_permission_decision random request (normalize_decision decision) at g).0
  unfolding apply_permission_decision
  apply-IsTraced =
      elim (Bool-cases (is_pending (lookup request.permission_request_id g.queue_status))) [
        | inl pending ↦ rw pending (effect_on-IsTraced (normalize_decision decision) refl)
        | inr settled ↦ rw settled (IsTraced-later _ t)
      ]

decide-IsTraced :
    (random : ℕ → String) (calls : List GateCall) (id decision at : String) (g : Gate)
    → IsTraced calls g
    → IsTraced (GateCall.answer id decision at ∷ calls) (decide random id decision at g).0
unfolding decide
decide-IsTraced random calls id decision at g t = elim (Option-cases (lookup id g.requests)) [
  | inl missing ↦ rw (missing, decide) (IsTraced-later _ t)
  | inr (request, found) ↦
      let (queued, named) = t.known id request found in
      let a =
        subst
          (λ i.
            IsTraced (GateCall.answer i decision at ∷ calls)
              (apply_permission_decision random request (normalize_decision decision) at g).0)
          named (apply-IsTraced random calls decision at g t request queued) in
      rw (found, decide) (IsTraced-same a refl a.approved)
]

expire_pending-grants :
    (matches : PermissionRequest → Bool) (g : Gate) → (expire_pending matches g).0.grants ≡ g.grants
unfolding expire_pending
expire_pending-grants matches g = ground arith

expire-IsTraced :
    (calls : List GateCall) (matches : PermissionRequest → Bool) (g : Gate)
    → IsTraced calls g
    → IsTraced calls (expire_pending matches g).0
unfolding expire_pending
expire-IsTraced calls matches g t =
    IsTraced-same t (ground arith) (rw (expire_pending-grants matches g) t.approved)

-- Everything of a list, one by one.
All-each : {A : Type 0} (P : A → Type 0) (xs : List A) → ((x : A) → Memᴰ x xs → P x) → All P xs
All-each P [] f = tt
All-each P (x ∷ xs) f = (f x (Memᴰ.head refl), All-each P xs (λ y m. f y (Memᴰ.tail m)))

-- What is found in a map that requests were put into was there before, or is one of them.
put_all-known :
    (P : String → PermissionRequest → Type 0) (entries : List (String × PermissionRequest))
    (requests : List PermissionRequest)
    → ((id : String) (request : PermissionRequest)
        → lookup id entries ≡ some request
        → P id request)
    → ((request : PermissionRequest)
        → Memᴰ request requests
        → P request.permission_request_id request)
    → (id : String) (request : PermissionRequest)
    → lookup id (put_all entries (by_id requests)) ≡ some request
    → P id request
put_all-known P entries [] old new id request = old id request
put_all-known P entries (first ∷ rest) old new id request =
    put_all-known P (insert first.permission_request_id first entries) rest
      (λ i q h. elim (Bool-cases (first.permission_request_id == i)) [
        | inl hit ↦
            let same : first ≡ q =
              ground (arith, lookup-insert first.permission_request_id i first entries) in
            subst (λ x. P i x) same
              (subst (λ k. P k first) ((eq_iff first.permission_request_id i).0 hit)
                (new first (Memᴰ.head refl)))
        | inr miss ↦
            old i q (ground (arith, lookup-insert first.permission_request_id i first entries))
      ])
      (λ q m. new q (Memᴰ.tail m)) id request

restore-IsTraced :
    (calls : List GateCall) (saved : PartialSnapshot) (g : Gate)
    → IsTraced (GateCall.restore saved ∷ calls) (hydrate saved g)
unfolding hydrate lookup
restore-IsTraced calls saved g = record {
  known =
      put_all-known
        (λ id request.
          IsAsked (GateCall.restore saved ∷ calls) request × (request.permission_request_id ≡ id))
        [] (list_or_empty saved.requests) (λ id request e. ground arith)
        (λ request m. (inr (record { saved = saved; restored = Memᴰ.head refl; holds = m }), refl));
  approved =
      All-each (GrantIsApproved (GateCall.restore saved ∷ calls)) (list_or_empty saved.grants)
        (λ grant m. inr (record {
          saved = saved;
          restored = Memᴰ.head refl;
          holds = record { grant = grant; kept = m; job = refl; permission = refl };
        }));
}

perform-IsTraced :
    (random : ℕ → String) (calls : List GateCall) (call : GateCall) (g : Gate)
    → IsTraced calls g
    → IsTraced (call ∷ calls) (perform random call g)
unfolding perform expire_pending_for_job expire_pending_for_affair revoke_for_job revoke_all lookup
perform-IsTraced random calls (GateCall.put request) g t = enqueue-IsTraced calls request g t
perform-IsTraced random calls (GateCall.answer id decision at) g t =
    decide-IsTraced random calls id decision at g t
perform-IsTraced random calls (GateCall.check job_id permission_id) g t =
    IsTraced-later _ (is_granted-IsTraced calls job_id permission_id g t)
perform-IsTraced random calls (GateCall.expire_job job_id) g t =
    IsTraced-later _ (expire-IsTraced calls _ g t)
perform-IsTraced random calls (GateCall.expire_affair affair_id) g t =
    IsTraced-later _ (expire-IsTraced calls _ g t)
perform-IsTraced random calls (GateCall.revoke_job job_id) g t =
    let e =
      IsTraced-later (GateCall.revoke_job job_id) (expire-IsTraced calls (of_job job_id) g t) in
    IsTraced-same e refl (All-filter _ _ _ e.approved)
perform-IsTraced random calls GateCall.revoke_every g t = record {
  known = λ id request e. cc;
  approved = tt;
}
perform-IsTraced random calls (GateCall.restore saved) g t = restore-IsTraced calls saved g

after-IsTraced : (random : ℕ → String) (calls : List GateCall) → IsTraced calls (after random calls)
unfolding after lookup
after-IsTraced random [] = record { known = λ id request e. cc; approved = tt }
after-IsTraced random (call ∷ calls) =
    perform-IsTraced random calls call (after random calls) (after-IsTraced random calls)

any-IsApproved :
    (calls : List GateCall) (job_id permission_id : String) (grants : List Grant)
    → All (GrantIsApproved calls) grants
    → any (grant_fits job_id permission_id) grants ≡ true
    → IsApproved calls job_id permission_id ⊎ IsInherited calls job_id permission_id
any-IsApproved calls job_id permission_id [] a h = cc
any-IsApproved calls job_id permission_id (grant ∷ rest) a h =
    elim (Bool-cases (grant_fits job_id permission_id grant)) [
      | inl fits ↦
          let job : grant.job_id ≡ job_id = ground (arith, eq_iff grant.job_id job_id) in
          let permission : grant.permission_id ≡ permission_id =
            ground (arith, eq_iff grant.permission_id permission_id) in
          rw (← job, ← permission) a.0
      | inr miss ↦ any-IsApproved calls job_id permission_id rest a.1 (rw miss at h)
    ]

-- After any calls on a new gate, restored snapshots among them, a job has a grant for a permission
-- that is not free by default only if the user answered a request of that job which lists the
-- permission with "allow once" or "allow for job", or a restored snapshot had a grant for them. The
-- request was put into the queue or restored with it.
pub has_grant-IsApproved :
    (random : ℕ → String) (calls : List GateCall) (job_id permission_id : String)
    → is_allowed_by_default permission_id ≡ false
    → has_grant job_id permission_id (after random calls) ≡ true
    → IsApproved calls job_id permission_id ⊎ IsInherited calls job_id permission_id
unfolding has_grant
has_grant-IsApproved random calls job_id permission_id asked h =
    any-IsApproved calls job_id permission_id (after random calls).grants
      (after-IsTraced random calls).approved (rw asked at h)
