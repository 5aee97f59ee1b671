-- ===== src/States/Laws.antt =====
-- What the transition tables promise: which states are final, and how the final ones are reached.
use lanxin_claw.Shared.{
  ◌≡◌, ◌≢◌, refl, ◌⊎◌, inl, inr, Bool, true, not, ◌&&◌, arith, same, same_refl, Reach, here, next,
  Reach_induction,
}
use lanxin_claw.States.Affair.{AffairStatus, affair_status_enum, can_transition_affair_status}

abbrev pub IsFinalAffair : AffairStatus → Type 0
IsFinalAffair s = (s ≡ AffairStatus.closed) ⊎ (s ≡ AffairStatus.canceled)

affair_final_step :
    (s t : AffairStatus) → IsFinalAffair s → can_transition_affair_status s t ≡ true → t ≡ s
unfolding can_transition_affair_status
affair_final_step s t f h = ground arith

-- A closed or a canceled affair takes no other status, along any number of transitions.
pub affair_final_absorbs :
    {s t : AffairStatus} → IsFinalAffair s → Reach can_transition_affair_status s t → t ≡ s
affair_final_absorbs f here = refl
affair_final_absorbs {s} f (next {b} {c} r h) =
    ground (arith, affair_final_absorbs f r, affair_final_step b c)

closed_step :
    (s : AffairStatus)
    → can_transition_affair_status s AffairStatus.closed ≡ true
    → (s ≡ AffairStatus.closed) ⊎ (s ≡ AffairStatus.waiting_acceptance)
unfolding can_transition_affair_status
closed_step s h = ground arith

-- The transitions that avoid `waiting_acceptance`.
abbrev pub avoiding : AffairStatus → AffairStatus → Bool
avoiding from to =
    can_transition_affair_status from to && not (same to AffairStatus.waiting_acceptance)

-- Every way to `closed` passes through `waiting_acceptance`: from a status that is neither of the
-- two, no transitions that avoid `waiting_acceptance` lead to `closed`.
pub closed_needs_acceptance :
    {s t : AffairStatus}
    → s ≢ AffairStatus.closed
    → s ≢ AffairStatus.waiting_acceptance
    → Reach avoiding s t
    → t ≢ AffairStatus.closed
closed_needs_acceptance {s} going working path e =
    (Reach_induction (λ u. (u ≢ AffairStatus.closed) × (u ≢ AffairStatus.waiting_acceptance))
        (λ b c kept step. (
          (λ closed. elim (closed_step b (ground (arith, closed))) [
            | inl same ↦ kept.0 same
            | inr waiting ↦ kept.1 waiting
          ]),
          (λ waiting. ground (arith, waiting, same_refl AffairStatus.waiting_acceptance)),
        ))
        path (going, working)).0
      e
