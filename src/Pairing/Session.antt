-- ===== src/Pairing/Session.antt =====
-- apps/companion/src/pairing/session.ts, challenge.ts and lifecycle/: the state of one pairing, its
-- moves, and what its operations answer. An error is kept by its code.
use lanxin_claw.Shared.{
  ℕ, String, Bool, true, false, not, ◌&&◌, List, Option, none, some, if◌then◌else◌, ◌==◌,
}
use lanxin_claw.States.Pairing.{PairingStatus, can_transition_pairing_status}

pub record PairingSession : Type 0 where
  pub pairing_id : String
  pub status : PairingStatus
  pub phone_device_id : String
  pub phone_display_name : String
  pub desktop_device_id : String
  pub desktop_display_name : String
  pub challenge : Option String
  pub expires_at : Option String
  pub phone_confirmed_at : Option String
  pub desktop_approved_at : Option String
  pub paired_at : Option String
  pub capabilities : List String

pub record PairingRequest : Type 0 where
  pub pairing_id : String
  pub phone_device_id : String
  pub phone_display_name : String
  pub capabilities : List String

pub record PairingConfirmed : Type 0 where
  pub pairing_id : String
  pub challenge_response : String
  pub phone_confirmed_at : String

-- `PairingLifecycleDeps` without the clock: an operation is given the time.
pub record Deps : Type 0 where
  pub desktop_device_id : String
  pub desktop_display_name : String
  pub challenge_ttl_ms : Option ℕ

abbrev pub create_empty_pairing_session : PairingRequest → Deps → PairingSession
create_empty_pairing_session input deps = record {
  pairing_id = input.pairing_id;
  status = PairingStatus.unpaired;
  phone_device_id = input.phone_device_id;
  phone_display_name = input.phone_display_name;
  desktop_device_id = deps.desktop_device_id;
  desktop_display_name = deps.desktop_display_name;
  challenge = none;
  expires_at = none;
  phone_confirmed_at = none;
  desktop_approved_at = none;
  paired_at = none;
  capabilities = input.capabilities;
}

pub data Outcome : Type 0 where
  ok : (pairing_secret : Option String) → Outcome
  error : (code : String) → Outcome

abbrev pub is_ok : Outcome → Bool
is_ok (Outcome.ok secret) = true
is_ok (Outcome.error code) = false

-- The messages to the phone. A correlation id is left out.
pub data Emitted : Type 0 where
  challenge : (phone pairing_id desktop name challenge expires_at : String) → Emitted
  desktop_approved : (phone pairing_id approved_at : String) → Emitted
  completed : (phone pairing_id desktop pairing_secret paired_at : String) → Emitted
  revoked : (phone pairing_id desktop reason revoked_at : String) → Emitted

-- `none` is the error `pairing_illegal_transition`.
unfoldable pub transition : PairingSession → PairingStatus → Option PairingSession
transition session to =
    if not (can_transition_pairing_status session.status to)
    then none
    else some (record session { status = to })

-- `expected.length > 0 && expected === response`.
abbrev pub verify_challenge_response : String → String → Bool
verify_challenge_response expected response = not (expected == "") && expected == response
