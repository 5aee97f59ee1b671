-- ===== src/Store/Repair.antt =====
-- What the repair of the affairs at start-up may write.
use mathlib.Core.Path.{subst}
use lanxin_claw.Shared.{
  ℕ, ◌+◌, String, ◌≡◌, refl, ◌⊎◌, inl, inr, true, false, List, [], ◌∷◌, none, some, arith, ◌==◌,
  eq_iff, eq_refl, lookup, insert, lookup-insert, Bool-cases, Option-cases, same, Reach,
}
use lanxin_claw.States.Affair.{AffairStatus, affair_status_enum, can_transition_affair_status}
use lanxin_claw.States.Laws.{IsFinalAffair}
use lanxin_claw.Store.Types.{Affair, Job, State}
use lanxin_claw.Store.Projection.{
  affair_status_for_job, project_affair_with_job, can_reach_affair_status,
  select_reconciliation_job, repair_with, repair_affair, repair_loop, reconcile_affairs_from_jobs,
}
use lanxin_claw.Store.Projected.{project-status, projected_not_final}
use lanxin_claw.Store.Reconcile.{affair_search-Reach}

-- A repair of an affair: it was not at an end, it is not brought to one, and the table leads from
-- the old status to the new one.
pub record IsRepair (before after : Affair) : Type 0 where
  pub name : after.affair_id ≡ before.affair_id
  pub open_before : ¬ IsFinalAffair before.status
  pub open_after : ¬ IsFinalAffair after.status
  pub path : Reach can_transition_affair_status before.status after.status

closed_or_canceled :
    (s : AffairStatus)
    → same s AffairStatus.closed ≡ false
    → same s AffairStatus.canceled ≡ false
    → ¬ IsFinalAffair s
closed_or_canceled s a b (inl closed) = ground arith
closed_or_canceled s a b (inr canceled) = ground arith

repair_with-IsRepair :
    (affair later : Affair) (job : Job) (status : AffairStatus)
    → affair_status_for_job job ≡ some status
    → repair_with affair job status ≡ some later
    → IsRepair affair later
repair_with-IsRepair affair later job status target e =
    let new = project_affair_with_job affair job status in
    let (to, name) = project-status affair job status in
    let same_affair : later ≡ new = ground arith in
    let reached : can_reach_affair_status affair.status new.status ≡ some true = ground arith in
    let path = (affair_search-Reach affair.status new.status).1.0 reached in
    rw same_affair (record {
      name = name;
      open_before = closed_or_canceled affair.status (ground arith) (ground arith);
      open_after = rw to (projected_not_final job status target);
      path = path;
    })

repair_affair-IsRepair :
    (jobs : List (String × Job)) (affair later : Affair)
    → repair_affair jobs affair ≡ some later
    → IsRepair affair later
unfolding repair_affair
repair_affair-IsRepair jobs affair later e =
    elim (Option-cases (select_reconciliation_job jobs affair)) [
      | inl idle ↦ ground arith
      | inr (job, chosen) ↦ elim (Option-cases (affair_status_for_job job)) [
        | inl silent ↦ ground arith
        | inr (status, target) ↦ repair_with-IsRepair affair later job status target (ground arith)
      ]
    ]

-- A table of affairs: each under its own id, no id twice.
abbrev pub IsTable : List (String × Affair) → Type 0
IsTable [] = Unit
IsTable ((key, affair) ∷ rest) = (affair.affair_id ≡ key) × (lookup key rest ≡ none) × IsTable rest

-- The entries that the loop has still to visit are as they were.
abbrev IsUntouched : List (String × Affair) → List (String × Affair) → Type 0
IsUntouched entries affairs =
    (id : String) (affair : Affair)
    → lookup id entries ≡ some affair
    → lookup id affairs ≡ some affair

abbrev IsRepaired : List (String × Affair) → List (String × Affair) → Type 0
IsRepaired before after =
    (id : String) (affair : Affair)
    → lookup id before ≡ some affair
    → (later : Affair) × (lookup id after ≡ some later) × ((later ≡ affair) ⊎ IsRepair affair later)

rest-IsUntouched :
    (key : String) (affair : Affair) (rest affairs : List (String × Affair))
    → lookup key rest ≡ none
    → IsUntouched ((key, affair) ∷ rest) affairs
    → IsUntouched rest affairs
unfolding lookup
rest-IsUntouched key affair rest affairs fresh u id old e = u id old (ground (arith, eq_iff key id))

module _ (key : String) (affair later : Affair) (rest affairs : List (String × Affair))
    (name : affair.affair_id ≡ key) (fresh : lookup key rest ≡ none) where
  insert-IsUntouched :
      IsUntouched rest affairs → IsUntouched rest (insert affair.affair_id later affairs)
  insert-IsUntouched u id old e = ground (
    arith,
    u id old e,
    eq_iff affair.affair_id id,
    lookup-insert affair.affair_id id later affairs,
  )

  insert-IsRepaired :
      (original : List (String × Affair))
      → lookup key original ≡ some affair
      → IsRepair affair later
      → IsRepaired original affairs
      → IsRepaired original (insert affair.affair_id later affairs)
  insert-IsRepaired original there repair r id old e =
      let written = lookup-insert affair.affair_id id later affairs in
      elim (Bool-cases (affair.affair_id == id)) [
        | inl hit ↦
            let found : lookup id original ≡ some affair =
              ground (arith, eq_iff affair.affair_id id) in
            let old_is : affair ≡ old = ground arith in
            (later, ground arith, inr (subst (λ a. IsRepair a later) old_is repair))
        | inr miss ↦ let (later', found, kept) = r id old e in (later', ground arith, kept)
      ]

repair_loop-IsRepaired :
    (jobs : List (String × Job)) (entries affairs : List (String × Affair)) (changed : ℕ)
    → IsTable entries
    → (original : List (String × Affair)) → IsUntouched entries original
    → IsUntouched entries affairs
    → IsRepaired original affairs
    → IsRepaired original (repair_loop jobs entries affairs changed).0
unfolding lookup
repair_loop-IsRepaired jobs [] affairs changed t original o u r = r
repair_loop-IsRepaired jobs ((key, affair) ∷ rest) affairs changed (name, fresh, t) original o u r =
    let o' = rest-IsUntouched key affair rest original fresh o in
    let u' = rest-IsUntouched key affair rest affairs fresh u in
    elim (Option-cases (repair_affair jobs affair)) [
      | inl idle ↦
          rw (idle, repair_loop)
            (repair_loop-IsRepaired jobs rest affairs changed t original o' u' r)
      | inr (later, e) ↦
          let repair = repair_affair-IsRepair jobs affair later e in
          let affairs' = insert affair.affair_id later affairs in
          rw (e, repair_loop)
            (repair_loop-IsRepaired jobs rest affairs' (changed + 1) t original o'
              (insert-IsUntouched key affair later rest affairs name fresh u')
              (insert-IsRepaired key affair later rest affairs name fresh original
                (o key affair (ground (arith, eq_refl key))) repair r))
    ]

-- The repair at start-up keeps every affair under its id. One that it changes was not closed or
-- canceled and does not become so, and the table of affair transitions leads from its old status
-- to the new one.
pub reconcile-IsRepaired :
    (now : String) (state : State)
    → IsTable state.affairs
    → (id : String) (affair : Affair) → lookup id state.affairs ≡ some affair
    → (later : Affair) × (lookup id (reconcile_affairs_from_jobs now state).0.affairs ≡ some later)
      × ((later ≡ affair) ⊎ IsRepair affair later)
unfolding reconcile_affairs_from_jobs
reconcile-IsRepaired now state table id affair e =
    let (later, found, kept) =
      repair_loop-IsRepaired state.jobs state.affairs state.affairs 0 table state.affairs
        (λ i a f. f) (λ i a f. f) (λ i a f. (a, f, inl refl)) id affair e in
    (later, ground (arith, found), kept)
