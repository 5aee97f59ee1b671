-- ===== src/States/Pairing.antt =====
-- packages/protocol/src/states/pairing-status.ts: the life of a pairing.
use lanxin_claw.Shared.{
  ℕ, ◌≡◌, Bool, true, List, [], ◌∷◌, arith, if◌then◌else◌, Enum, same, includes,
}

pub data PairingStatus : Type 0 where
  unpaired pairing_requested phone_confirmed desktop_confirmed paired pairing_rejected revoked :
      PairingStatus

abbrev pairing_status_code : PairingStatus → ℕ
pairing_status_code PairingStatus.unpaired = 0
pairing_status_code PairingStatus.pairing_requested = 1
pairing_status_code PairingStatus.phone_confirmed = 2
pairing_status_code PairingStatus.desktop_confirmed = 3
pairing_status_code PairingStatus.paired = 4
pairing_status_code PairingStatus.pairing_rejected = 5
pairing_status_code PairingStatus.revoked = 6

pub pairing_status_code_injective :
    (a b : PairingStatus) → pairing_status_code a ≡ pairing_status_code b → a ≡ b
pairing_status_code_injective a b h = ground arith

instance abbrev pub pairing_status_enum : Enum PairingStatus
pairing_status_enum = record {
  code = pairing_status_code;
  code_injective = pairing_status_code_injective;
}

-- `PAIRING_TRANSITIONS`.
unfoldable pub pairing_transitions : PairingStatus → List PairingStatus
pairing_transitions PairingStatus.unpaired =
    PairingStatus.pairing_requested ∷ PairingStatus.pairing_rejected ∷ []
pairing_transitions PairingStatus.pairing_requested =
    PairingStatus.phone_confirmed ∷ PairingStatus.pairing_rejected ∷ PairingStatus.revoked ∷ []
pairing_transitions PairingStatus.phone_confirmed =
    PairingStatus.desktop_confirmed ∷ PairingStatus.pairing_rejected ∷ PairingStatus.revoked ∷ []
pairing_transitions PairingStatus.desktop_confirmed =
    PairingStatus.paired ∷ PairingStatus.pairing_rejected ∷ PairingStatus.revoked ∷ []
pairing_transitions PairingStatus.paired = PairingStatus.revoked ∷ []
pairing_transitions PairingStatus.pairing_rejected = []
pairing_transitions PairingStatus.revoked = []

unfoldable pub can_transition_pairing_status : PairingStatus → PairingStatus → Bool
unfolding pairing_transitions
can_transition_pairing_status from to =
    if same from to then true else includes to (pairing_transitions from)
