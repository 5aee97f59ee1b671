-- ===== src/Closing/Tests.antt =====
-- A result that is accepted, and the theorems at it.
use lanxin_claw.Shared.{◌≡◌, refl, none, some, lookup}
use lanxin_claw.States.Affair.{affair_status_enum, can_transition_affair_status}
use lanxin_claw.Closing.Precheck.{
  CloseStatus, precheck_affair_close, precheck_acceptance, has_acceptance_evidence,
}
use lanxin_claw.Closing.Fixtures.{affair, state, command}
use lanxin_claw.Closing.Accepted.{IsAcceptable, precheck_close-IsAcceptable}

passes : precheck_affair_close state (command CloseStatus.closed) ≡ none
unfolding precheck_affair_close precheck_acceptance has_acceptance_evidence
    can_transition_affair_status lookup
passes = refl

-- A blank summary is no summary.
blank_summary :
    precheck_affair_close state
      (record (command CloseStatus.closed) { acceptance_summary = some "  " })
    ≡ some "affair_acceptance_evidence_missing"
unfolding precheck_affair_close precheck_acceptance can_transition_affair_status lookup
blank_summary = refl

stored : lookup "a1" state.affairs ≡ some affair
unfolding lookup
stored = refl

precheck_close-IsAcceptable_example : IsAcceptable state (command CloseStatus.closed)
precheck_close-IsAcceptable_example =
    precheck_close-IsAcceptable state (command CloseStatus.closed) refl passes
