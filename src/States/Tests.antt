-- ===== src/States/Tests.antt =====
-- An affair's life from the agreement to its end, and the theorems at it.
use lanxin_claw.Shared.{◌≡◌, ◌≢◌, refl, true, arith, here, next}
use lanxin_claw.States.Affair.{AffairStatus, can_transition_affair_status}
use lanxin_claw.States.Laws.{avoiding, closed_needs_acceptance}

closed_stays : can_transition_affair_status AffairStatus.closed AffairStatus.closed ≡ true
unfolding can_transition_affair_status
closed_stays = refl

accept : can_transition_affair_status AffairStatus.waiting_acceptance AffairStatus.closed ≡ true
unfolding can_transition_affair_status
accept = refl

finish : can_transition_affair_status AffairStatus.running AffairStatus.waiting_acceptance ≡ true
unfolding can_transition_affair_status
finish = refl

-- An affair that gets stuck.
stuck : avoiding AffairStatus.running AffairStatus.blocked ≡ true
unfolding can_transition_affair_status
stuck = refl

closed_needs_acceptance_example : AffairStatus.blocked ≢ AffairStatus.closed
closed_needs_acceptance_example =
    closed_needs_acceptance {s = AffairStatus.running} {t = AffairStatus.blocked}
      (λ e. ground (arith, e)) (λ e. ground (arith, e)) (next here stuck)
