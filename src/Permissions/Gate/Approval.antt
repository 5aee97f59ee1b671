-- ===== src/Permissions/Gate/Approval.antt =====
-- The grants of a gate and the requests the user approved.
use lanxin_claw.Shared.{
  ℕ, ◌+◌, String, ◌≡◌, refl, ap, ◌⊎◌, inl, inr, Bool, true, false, List, [], ◌∷◌, Option, none,
  some, arith, ◌==◌, eq_iff, lookup, lookup-insert, All, All-map, Memᴰ, Bool-cases, Option-cases,
}
use lanxin_claw.States.Decision.{Decision, parse_permission_decision}
use lanxin_claw.Permissions.Policy.{is_allowed_by_default}
use lanxin_claw.Permissions.Types.{GrantScope, PermissionRequest, Grant}
use lanxin_claw.Permissions.Gate.{
  Gate, push_grants, grant_fits, spend, use_grant, is_granted, enqueue, normalize_decision,
}
use lanxin_claw.Permissions.Gate.Grants.{after_search, is_granted-after_search}
use lanxin_claw.Permissions.Gate.Calls.{GateCall}
use lanxin_claw.Permissions.Gate.Snapshot.{PartialSnapshot, list_or_empty}

abbrev pub IsAllowing : String → Type 0
IsAllowing decision = (decision ≡ "allow_once") ⊎ (decision ≡ "allow_for_job")

-- Only the two texts are read as a permission.
pub normalize-IsAllowing :
    (decision : String)
    → (normalize_decision decision ≡ Decision.allow_once)
      ⊎ (normalize_decision decision ≡ Decision.allow_for_job)
    → IsAllowing decision
unfolding normalize_decision parse_permission_decision
normalize-IsAllowing decision h =
    ground (arith, eq_iff decision "allow_once", eq_iff decision "allow_for_job")

-- A call has restored a snapshot with this in it.
pub record IsRestored (Holds : PartialSnapshot → Type 0) (calls : List GateCall) : Type 0 where
  pub saved : PartialSnapshot
  pub restored : Memᴰ (GateCall.restore saved) calls
  pub holds : Holds saved

-- The request was put into the queue, or restored with it.
abbrev pub IsAsked : List GateCall → PermissionRequest → Type 0
IsAsked calls request =
    Memᴰ (GateCall.put request) calls
    ⊎ IsRestored (λ saved. Memᴰ request (list_or_empty saved.requests)) calls

-- The user allowed a request of the queue, for this job and permission.
pub record IsApproved (calls : List GateCall) (job_id permission_id : String) : Type 0 where
  pub request : PermissionRequest
  pub decision : String
  pub at : String
  pub queued : IsAsked calls request
  pub answered : Memᴰ (GateCall.answer request.permission_request_id decision at) calls
  pub allowing : IsAllowing decision
  pub job : request.job_id ≡ job_id
  pub listed : Memᴰ permission_id request.requested_permissions

-- A grant for this job and permission among some others.
pub record IsGrantOf (grants : List Grant) (job_id permission_id : String) : Type 0 where
  pub grant : Grant
  pub kept : Memᴰ grant grants
  pub job : grant.job_id ≡ job_id
  pub permission : grant.permission_id ≡ permission_id

-- The grant was in a snapshot that was restored.
abbrev pub IsInherited : List GateCall → (job_id permission_id : String) → Type 0
IsInherited calls job_id permission_id =
    IsRestored (λ saved. IsGrantOf (list_or_empty saved.grants) job_id permission_id) calls

abbrev pub GrantIsApproved : List GateCall → Grant → Type 0
GrantIsApproved calls grant =
    IsApproved calls grant.job_id grant.permission_id
    ⊎ IsInherited calls grant.job_id grant.permission_id

pub record IsTraced (calls : List GateCall) (g : Gate) : Type 0 where
  pub known :
      (id : String) (request : PermissionRequest)
      → lookup id g.requests ≡ some request
      → IsAsked calls request × (request.permission_request_id ≡ id)
  pub approved : All (GrantIsApproved calls) g.grants

module _ (call : GateCall) {calls : List GateCall} where
  IsRestored-later :
      (Holds : PartialSnapshot → Type 0) → IsRestored Holds calls → IsRestored Holds (call ∷ calls)
  IsRestored-later Holds r = record {
    saved = r.saved;
    restored = Memᴰ.tail r.restored;
    holds = r.holds;
  }

  pub IsAsked-later :
      (request : PermissionRequest) → IsAsked calls request → IsAsked (call ∷ calls) request
  IsAsked-later request (inl put) = inl (Memᴰ.tail put)
  IsAsked-later request (inr restored) = inr (IsRestored-later _ restored)

  GrantIsApproved-later :
      (grant : Grant) → GrantIsApproved calls grant → GrantIsApproved (call ∷ calls) grant
  GrantIsApproved-later grant (inr inherited) = inr (IsRestored-later _ inherited)
  GrantIsApproved-later grant (inl a) = inl (record {
    request = a.request;
    decision = a.decision;
    at = a.at;
    queued = IsAsked-later a.request a.queued;
    answered = Memᴰ.tail a.answered;
    allowing = a.allowing;
    job = a.job;
    listed = a.listed;
  })

  pub IsTraced-later : {g : Gate} → IsTraced calls g → IsTraced (call ∷ calls) g
  IsTraced-later {g} t = record {
    known = λ id request e. let (m, n) = t.known id request e in (IsAsked-later request m, n);
    approved =
        All-map (GrantIsApproved calls) (GrantIsApproved (call ∷ calls)) g.grants
          GrantIsApproved-later t.approved;
  }

-- A change that keeps the requests, and keeps of the grants what was approved.
pub IsTraced-same :
    {calls : List GateCall} {g g' : Gate}
    → IsTraced calls g
    → g'.requests ≡ g.requests
    → All (GrantIsApproved calls) g'.grants
    → IsTraced calls g'
IsTraced-same t e a = record {
  known = λ id request f. t.known id request (rw e at f);
  approved = a;
}

abbrev AllLeft : (Grant → Type 0) → Option (List Grant × Bool) → Type 0
AllLeft P none = Unit
AllLeft P (some (grants, spent)) = All P grants

module _ (calls : List GateCall) (job_id permission_id : String) where
  AllLeft-cons :
      (grant : Grant) (o : Option (List Grant × Bool))
      → GrantIsApproved calls grant
      → AllLeft (GrantIsApproved calls) o
      → AllLeft
          (GrantIsApproved calls)
          (elim o [ none ↦ none | some (rest, spent) ↦ some (grant ∷ rest, spent) ])
  AllLeft-cons grant none a l = tt
  AllLeft-cons grant (some (rest, spent)) a l = (a, l)

  spend-approved :
      (grant : Grant) → GrantIsApproved calls grant → GrantIsApproved calls (spend grant)
  spend-approved grant a = ground (arith, a)

  use_grant-AllLeft :
      (grants : List Grant)
      → All (GrantIsApproved calls) grants
      → AllLeft (GrantIsApproved calls) (use_grant job_id permission_id grants)
  use_grant-AllLeft [] a = tt
  use_grant-AllLeft (grant ∷ rest) a = elim (Bool-cases (grant_fits job_id permission_id grant)) [
    | inl fits ↦ rw fits (spend-approved grant a.0, a.1)
    | inr miss ↦ rw miss (AllLeft-cons grant _ a.0 (use_grant-AllLeft rest a.1))
  ]

  after_search-IsTraced :
      (g : Gate) (o : Option (List Grant × Bool))
      → IsTraced calls g
      → AllLeft (GrantIsApproved calls) o
      → IsTraced calls (after_search job_id permission_id g o).0
  after_search-IsTraced g none t l = t
  after_search-IsTraced g (some (grants, true)) t l = IsTraced-same t refl l
  after_search-IsTraced g (some (grants, false)) t l = t

  pub is_granted-IsTraced :
      (g : Gate) → IsTraced calls g → IsTraced calls (is_granted job_id permission_id g).0
  unfolding is_granted
  is_granted-IsTraced g t = elim (Bool-cases (is_allowed_by_default permission_id)) [
    | inl free ↦ rw free t
    | inr asked ↦
        rw (is_granted-after_search job_id permission_id g asked)
          (after_search-IsTraced g _ t (use_grant-AllLeft g.grants t.approved))
  ]

pub enqueue-IsTraced :
    (calls : List GateCall) (request : PermissionRequest) (g : Gate)
    → IsTraced calls g
    → IsTraced (GateCall.put request ∷ calls) (enqueue request g).0
unfolding enqueue
enqueue-IsTraced calls request g t =
    let call = GateCall.put request in
    let later = IsTraced-later call t in
    elim (Option-cases (lookup request.permission_request_id g.requests)) [
      | inr (old, e) ↦ rw e later
      | inl fresh ↦ rw fresh (record {
        known = λ id found e. elim (Bool-cases (request.permission_request_id == id)) [
          | inl same ↦
              let new : found ≡ request =
                ground (arith, lookup-insert request.permission_request_id id request g.requests) in
              (
                inl (Memᴰ.head (ap GateCall.put new)),
                ground (arith, eq_iff request.permission_request_id id),
              )
          | inr other ↦
              later.known id found
                (ground (arith, lookup-insert request.permission_request_id id request g.requests))
        ];
        approved = later.approved;
      })
    ]

pub push_grants-approved :
    (random : ℕ → String) (calls : List GateCall) (request : PermissionRequest) (scope : GrantScope)
    (at : String) (permissions : List String) (seq : ℕ)
    → ((permission : String)
        → Memᴰ permission permissions
        → IsApproved calls request.job_id permission)
    → All (GrantIsApproved calls) (push_grants random request scope at permissions seq)
push_grants-approved random calls request scope at [] seq a = tt
push_grants-approved random calls request scope at (p ∷ rest) seq a = (
  inl (a p (Memᴰ.head refl)),
  push_grants-approved random calls request scope at rest (seq + 1) (λ q m. a q (Memᴰ.tail m)),
)
