-- ===== src/Store/Reconcile.antt =====
-- The search that the repair of the affairs at start-up uses.
use lanxin_claw.Shared.{
  ◌≡◌, refl, ap, ◌∙◌, ◌↔◌, inl, inr, Bool, true, false, [], ◌∷◌, some, arith, if◌then◌else◌,
  Bool-cases, same, same_refl, eq_of_same, Reach, Reach_induction, here, next, search_from-Reach,
}
use lanxin_claw.States.Affair.{
  AffairStatus, affair_status_enum, affair_statuses, can_transition_affair_status,
}
use lanxin_claw.Store.Projection.{is_seen, can_reach_affair_status}

-- Which status comes after which: what is agreed, then the work, then an end.
data Phase : Type 0 where
  talk start work over : Phase

abbrev phase : AffairStatus → Phase
phase AffairStatus.clarifying = Phase.talk
phase AffairStatus.ready = Phase.talk
phase AffairStatus.delegated = Phase.start
phase AffairStatus.closed = Phase.over
phase AffairStatus.canceled = Phase.over
phase _ = Phase.work

abbrev comes_after : Phase → Phase → Bool
comes_after Phase.talk to = true
comes_after Phase.start Phase.work = true
comes_after Phase.start Phase.over = true
comes_after Phase.work Phase.work = true
comes_after Phase.work Phase.over = true
comes_after _ _ = false

abbrev reachable : AffairStatus → AffairStatus → Bool
reachable from to = if same from to then true else comes_after (phase from) (phase to)

by_status :
    (P : AffairStatus → Type 0)
    → P AffairStatus.clarifying
    → P AffairStatus.ready
    → P AffairStatus.delegated
    → P AffairStatus.running
    → P AffairStatus.blocked
    → P AffairStatus.paused
    → P AffairStatus.waiting_acceptance
    → P AffairStatus.closed
    → P AffairStatus.canceled
    → (s : AffairStatus) → P s
by_status P a b c d e f g h i AffairStatus.clarifying = a
by_status P a b c d e f g h i AffairStatus.ready = b
by_status P a b c d e f g h i AffairStatus.delegated = c
by_status P a b c d e f g h i AffairStatus.running = d
by_status P a b c d e f g h i AffairStatus.blocked = e
by_status P a b c d e f g h i AffairStatus.paused = f
by_status P a b c d e f g h i AffairStatus.waiting_acceptance = g
by_status P a b c d e f g h i AffairStatus.closed = h
by_status P a b c d e f g h i AffairStatus.canceled = i

abbrev IsFound : AffairStatus → AffairStatus → Type 0
IsFound from to = can_reach_affair_status from to ≡ some (reachable from to)

can_reach-reachable : (from to : AffairStatus) → IsFound from to
unfolding can_reach_affair_status can_transition_affair_status
can_reach-reachable AffairStatus.clarifying =
    by_status (IsFound AffairStatus.clarifying) refl refl refl refl refl refl refl refl refl
can_reach-reachable AffairStatus.ready =
    by_status (IsFound AffairStatus.ready) refl refl refl refl refl refl refl refl refl
can_reach-reachable AffairStatus.delegated =
    by_status (IsFound AffairStatus.delegated) refl refl refl refl refl refl refl refl refl
can_reach-reachable AffairStatus.running =
    by_status (IsFound AffairStatus.running) refl refl refl refl refl refl refl refl refl
can_reach-reachable AffairStatus.blocked =
    by_status (IsFound AffairStatus.blocked) refl refl refl refl refl refl refl refl refl
can_reach-reachable AffairStatus.paused =
    by_status (IsFound AffairStatus.paused) refl refl refl refl refl refl refl refl refl
can_reach-reachable AffairStatus.waiting_acceptance =
    by_status (IsFound AffairStatus.waiting_acceptance) refl refl refl refl refl refl refl refl refl
can_reach-reachable AffairStatus.closed =
    by_status (IsFound AffairStatus.closed) refl refl refl refl refl refl refl refl refl
can_reach-reachable AffairStatus.canceled =
    by_status (IsFound AffairStatus.canceled) refl refl refl refl refl refl refl refl refl

reachable-step :
    (from b c : AffairStatus)
    → reachable from b ≡ true
    → can_transition_affair_status b c ≡ true
    → reachable from c ≡ true
unfolding can_transition_affair_status
reachable-step from b c h s = ground arith

affair_search_sound :
    (from to : AffairStatus)
    → can_reach_affair_status from to ≡ some true
    → Reach can_transition_affair_status from to
unfolding can_reach_affair_status
affair_search_sound from to h = elim (Bool-cases (same from to)) [
  | inl equal ↦ rw (← eq_of_same from to equal) here
  | inr other ↦ elim (Bool-cases (can_transition_affair_status from to)) [
    | inl direct ↦ next here direct
    | inr far ↦
        search_from-Reach is_seen can_transition_affair_status from to affair_statuses 9 (from ∷ [])
          (from ∷ []) (here, tt) (rw (other, far) at h)
  ]
]

-- The search of the repair is exact: it answers for every pair of statuses, and it answers yes
-- just where the table of affair transitions leads from the one to the other.
pub affair_search-Reach :
    (from to : AffairStatus)
    → ((b : Bool) × (can_reach_affair_status from to ≡ some b))
      × ((can_reach_affair_status from to ≡ some true) ↔ Reach can_transition_affair_status from to)
affair_search-Reach from to = (
  (reachable from to, can_reach-reachable from to),
  (
    (λ h. affair_search_sound from to h),
    λ path.
        can_reach-reachable from to
        ∙ ap some (
            Reach_induction (λ s. reachable from s ≡ true) (reachable-step from) path
              (rw (same_refl from) refl)),
  ),
)
