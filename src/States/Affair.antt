-- ===== src/States/Affair.antt =====
-- packages/protocol/src/states/affair-status.ts: the life of an affair.
use lanxin_claw.Shared.{
  ℕ, ◌≡◌, Bool, true, List, [], ◌∷◌, arith, if◌then◌else◌, Enum, same, includes,
}

pub data AffairStatus : Type 0 where
  clarifying ready delegated running blocked paused waiting_acceptance closed canceled :
      AffairStatus

abbrev affair_status_code : AffairStatus → ℕ
affair_status_code AffairStatus.clarifying = 0
affair_status_code AffairStatus.ready = 1
affair_status_code AffairStatus.delegated = 2
affair_status_code AffairStatus.running = 3
affair_status_code AffairStatus.blocked = 4
affair_status_code AffairStatus.paused = 5
affair_status_code AffairStatus.waiting_acceptance = 6
affair_status_code AffairStatus.closed = 7
affair_status_code AffairStatus.canceled = 8

pub affair_status_code_injective :
    (a b : AffairStatus) → affair_status_code a ≡ affair_status_code b → a ≡ b
affair_status_code_injective a b h = ground arith

instance abbrev pub affair_status_enum : Enum AffairStatus
affair_status_enum = record {
  code = affair_status_code;
  code_injective = affair_status_code_injective;
}

abbrev pub affair_statuses : List AffairStatus
affair_statuses =
    AffairStatus.clarifying ∷ AffairStatus.ready ∷ AffairStatus.delegated ∷ AffairStatus.running
    ∷ AffairStatus.blocked ∷ AffairStatus.paused ∷ AffairStatus.waiting_acceptance
    ∷ AffairStatus.closed ∷ AffairStatus.canceled ∷ []

-- `AFFAIR_TRANSITIONS`.
unfoldable pub affair_transitions : AffairStatus → List AffairStatus
affair_transitions AffairStatus.clarifying = AffairStatus.ready ∷ AffairStatus.canceled ∷ []
affair_transitions AffairStatus.ready =
    AffairStatus.delegated ∷ AffairStatus.clarifying ∷ AffairStatus.canceled ∷ []
affair_transitions AffairStatus.delegated =
    AffairStatus.running ∷ AffairStatus.blocked ∷ AffairStatus.paused ∷ AffairStatus.canceled ∷ []
affair_transitions AffairStatus.running =
    AffairStatus.blocked ∷ AffairStatus.paused ∷ AffairStatus.waiting_acceptance
    ∷ AffairStatus.canceled ∷ []
affair_transitions AffairStatus.blocked =
    AffairStatus.running ∷ AffairStatus.paused ∷ AffairStatus.canceled ∷ []
affair_transitions AffairStatus.paused =
    AffairStatus.running ∷ AffairStatus.blocked ∷ AffairStatus.canceled ∷ []
affair_transitions AffairStatus.waiting_acceptance =
    AffairStatus.closed ∷ AffairStatus.running ∷ AffairStatus.canceled ∷ AffairStatus.blocked ∷ []
affair_transitions AffairStatus.closed = []
affair_transitions AffairStatus.canceled = []

unfoldable pub can_transition_affair_status : AffairStatus → AffairStatus → Bool
unfolding affair_transitions
can_transition_affair_status from to =
    if same from to then true else includes to (affair_transitions from)
