-- ===== src/Permissions/Gate/Grants.antt =====
-- How often a grant can be used: `isGranted`, `hasGrant` and the grants that a decision makes.
use lanxin_claw.Shared.{
  ℕ, zero, suc, ◌+◌, min, String, ◌≡◌, refl, ap, ◌∙◌, inl, inr, Bool, true, false, List, [], ◌∷◌,
  ◌++◌, Option, none, some, arith, if◌then◌else◌, ◌==◌, eq_refl, lookup, count, any, is_some, All,
  All-append, Bool-cases,
}
use lanxin_claw.Permissions.Policy.{is_allowed_by_default}
use lanxin_claw.Permissions.Types.{QueueStatus, GrantScope, PermissionRequest, Grant}
use lanxin_claw.Permissions.Gate.{
  apply_permission_decision, normalize_decision, Gate, push_grants, grant_fits, spend, use_grant,
  is_granted, has_grant, decide, notify,
}

-- How many grants fit a job and a permission.
abbrev pub fitting : String → String → List Grant → ℕ
fitting job_id permission_id grants = count (grant_fits job_id permission_id) grants

-- Every fitting grant is for one use.
abbrev pub FitsOnce : String → String → Grant → Type 0
FitsOnce job_id permission_id grant =
    grant_fits job_id permission_id grant ≡ true → grant.scope ≡ GrantScope.once

module _ (job_id permission_id : String) where
  any-use_grant :
      (grants : List Grant)
      → is_some (use_grant job_id permission_id grants)
        ≡ any (grant_fits job_id permission_id) grants
  any-use_grant [] = refl
  any-use_grant (grant ∷ rest) = ground (arith, any-use_grant rest)

  -- `isGranted` answers what `hasGrant` answers in the same state.
  pub is_granted-eq-has_grant :
      (g : Gate) → (is_granted job_id permission_id g).1 ≡ has_grant job_id permission_id g
  unfolding is_granted has_grant
  is_granted-eq-has_grant g = ground (arith, any-use_grant g.grants)

  spend_fits :
      (grant : Grant)
      → grant.scope ≡ GrantScope.once
      → grant_fits job_id permission_id (spend grant) ≡ false
  spend_fits grant h = ground arith

  -- What is left after one use of grants that are all for one use.
  abbrev UsedOnce : List Grant → Option (List Grant × Bool) → Type 0
  UsedOnce grants none = fitting job_id permission_id grants ≡ 0
  UsedOnce grants (some (grants', spent)) =
      (suc (fitting job_id permission_id grants') ≡ fitting job_id permission_id grants)
      × All (FitsOnce job_id permission_id) grants'
      × (spent ≡ true)

  UsedOnce-cons :
      (grant : Grant) (rest : List Grant) (o : Option (List Grant × Bool))
      → grant_fits job_id permission_id grant ≡ false
      → UsedOnce rest o
      → UsedOnce
          (grant ∷ rest)
          (elim o [ none ↦ none | some (rest', spent) ↦ some (grant ∷ rest', spent) ])
  UsedOnce-cons grant rest none miss u = rw miss u
  UsedOnce-cons grant rest (some (rest', spent)) miss (n, once, used) =
      (rw miss n, ((λ fits. cc), once), used)

  use_grant-UsedOnce :
      (grants : List Grant)
      → All (FitsOnce job_id permission_id) grants
      → UsedOnce grants (use_grant job_id permission_id grants)
  use_grant-UsedOnce [] o = refl
  use_grant-UsedOnce (grant ∷ rest) o = elim (Bool-cases (grant_fits job_id permission_id grant)) [
    | inl fits ↦
        let once = o.0 fits in rw fits (ground arith, ((λ again. ground arith), o.1), ground arith)
    | inr miss ↦ rw miss (UsedOnce-cons grant rest _ miss (use_grant-UsedOnce rest o.1))
  ]

  -- The tail of `isGranted`, once the grants were searched.
  abbrev pub after_search : Gate → Option (List Grant × Bool) → Gate × Bool
  after_search g none = (g, false)
  after_search g (some (grants, spent)) =
      (if spent then notify (record g { grants = grants }) else g, true)

  after_search-once :
      (g : Gate) (o : Option (List Grant × Bool))
      → UsedOnce g.grants o
      → (after_search g o).1 ≡ true
      → let g' = (after_search g o).0 in
        (suc (fitting job_id permission_id g'.grants) ≡ fitting job_id permission_id g.grants)
        × All (FitsOnce job_id permission_id) g'.grants
  after_search-once g none u h = cc
  after_search-once g (some (grants, true)) (n, once, used) h = (n, once)
  after_search-once g (some (grants, false)) (n, once, used) h = cc

  pub is_granted-after_search :
      (g : Gate)
      → is_allowed_by_default permission_id ≡ false
      → is_granted job_id permission_id g ≡ after_search g (use_grant job_id permission_id g.grants)
  unfolding is_granted
  is_granted-after_search g asked = ground arith

  is_granted-true :
      (g : Gate)
      → is_allowed_by_default permission_id ≡ false
      → All (FitsOnce job_id permission_id) g.grants
      → (is_granted job_id permission_id g).1 ≡ true
      → let g' = (is_granted job_id permission_id g).0 in
        (suc (fitting job_id permission_id g'.grants) ≡ fitting job_id permission_id g.grants)
        × All (FitsOnce job_id permission_id) g'.grants
  is_granted-true g asked once h =
      let e = is_granted-after_search g asked in
      rw e (after_search-once g _ (use_grant-UsedOnce g.grants once) (rw e at h))

  is_granted-false :
      (g : Gate)
      → is_allowed_by_default permission_id ≡ false
      → All (FitsOnce job_id permission_id) g.grants
      → (is_granted job_id permission_id g).1 ≡ false
      → ((is_granted job_id permission_id g).0 ≡ g) × (fitting job_id permission_id g.grants ≡ 0)
  unfolding is_granted
  is_granted-false g asked once h = ground (arith, use_grant-UsedOnce g.grants once)

  -- How many of `n` checks in a row pass.
  unfoldable pub checks : ℕ → Gate → ℕ
  checks zero g = 0
  checks (suc n) g =
      let (g', granted) = is_granted job_id permission_id g in
      let rest = checks n g' in if granted then suc rest else rest

  -- Of `n` checks as many pass as there are grants for one use.
  pub checks_budget :
      (n : ℕ) (g : Gate)
      → is_allowed_by_default permission_id ≡ false
      → All (FitsOnce job_id permission_id) g.grants
      → checks n g ≡ min n (fitting job_id permission_id g.grants)
  unfolding checks
  checks_budget zero g asked once = omega arith
  checks_budget (suc n) g asked once = elim (Bool-cases (is_granted job_id permission_id g).1) [
    | inl passed ↦
        let (fewer, kept) = is_granted-true g asked once passed in
        rw passed (omega (arith, checks_budget n (is_granted job_id permission_id g).0 asked kept))
    | inr refused ↦
        let (same, empty) = is_granted-false g asked once refused in
        rw (refused, same) (omega (arith, checks_budget n g asked once))
  ]

-- The copies of a permission in a list of requested permissions.
abbrev pub occurrences : String → List String → ℕ
occurrences permission_id permissions = count (λ p. p == permission_id) permissions

count-append :
    (p : Grant → Bool) (xs ys : List Grant) → count p (xs ++ ys) ≡ count p xs + count p ys
count-append p [] ys = omega arith
count-append p (x ∷ xs) ys = ground (arith, count-append p xs ys)

module _ (random : ℕ → String) (request : PermissionRequest) (at permission_id : String) where
  fitting-push_grants :
      (scope : GrantScope) (permissions : List String) (seq : ℕ)
      → fitting request.job_id permission_id (push_grants random request scope at permissions seq)
        ≡ occurrences permission_id permissions
  fitting-push_grants scope [] seq = refl
  fitting-push_grants scope (p ∷ rest) seq =
      ground (arith, eq_refl request.job_id, fitting-push_grants scope rest (seq + 1))

  push_grants-FitsOnce :
      (permissions : List String) (seq : ℕ)
      → All
          (FitsOnce request.job_id permission_id)
          (push_grants random request GrantScope.once at permissions seq)
  push_grants-FitsOnce [] seq = tt
  push_grants-FitsOnce (p ∷ rest) seq = ((λ fits. refl), push_grants-FitsOnce rest (seq + 1))

fitting-FitsOnce :
    (job_id permission_id : String) (grants : List Grant)
    → fitting job_id permission_id grants ≡ 0
    → All (FitsOnce job_id permission_id) grants
fitting-FitsOnce job_id permission_id [] h = tt
fitting-FitsOnce job_id permission_id (grant ∷ rest) h =
    ((λ fits. ground arith), fitting-FitsOnce job_id permission_id rest (ground arith))

module _ (random : ℕ → String) (id at : String) (request : PermissionRequest) (g : Gate)
    (found : lookup id g.requests ≡ some request) (named : request.permission_request_id ≡ id)
    (pending : lookup id g.queue_status ≡ some QueueStatus.pending) where
  decide_grants :
      (decide random id "allow_once" at g).0.grants
      ≡ g.grants
        ++ push_grants random request GrantScope.once at request.requested_permissions g.grant_seq
  unfolding decide apply_permission_decision normalize_decision
  decide_grants = ground arith

  -- "Allow once" for a pending request of a job that has no fitting grant: of `n` checks of a
  -- permission that is not free by default, as many pass as the request lists that permission.
  pub allow_once_budget :
      (n : ℕ) (permission_id : String)
      → is_allowed_by_default permission_id ≡ false
      → fitting request.job_id permission_id g.grants ≡ 0
      → checks request.job_id permission_id n (decide random id "allow_once" at g).0
        ≡ min n (occurrences permission_id request.requested_permissions)
  allow_once_budget n permission_id asked empty =
      let job_id = request.job_id in
      let pushed =
        push_grants random request GrantScope.once at request.requested_permissions g.grant_seq in
      let once : All (FitsOnce job_id permission_id) (decide random id "allow_once" at g).0.grants =
        rw decide_grants (
          All-append _ g.grants pushed (fitting-FitsOnce job_id permission_id g.grants empty) (
            push_grants-FitsOnce random request at permission_id request.requested_permissions
              g.grant_seq)) in
      checks_budget job_id permission_id n _ asked once
      ∙ ap (min n) (
          rw decide_grants (
            omega (
              arith,
              count-append (grant_fits job_id permission_id) g.grants pushed,
              fitting-push_grants random request at permission_id GrantScope.once
                  request.requested_permissions g.grant_seq,
              empty,
            )))
