-- ===== src/Pairing/Tests.antt =====
-- A pairing of one phone, step by step, and the theorems at it. The clock's texts
-- say no more than the deadline, and read back as it.
use lanxin_claw.Shared.{ℕ, String, ◌≡◌, ◌≢◌, refl, ◌⊎◌, true, List, [], ◌∷◌, Option, none, some}
use lanxin_claw.States.Pairing.{PairingStatus, can_transition_pairing_status}
use lanxin_claw.Pairing.Session.{
  PairingSession, PairingRequest, PairingConfirmed, Deps, Outcome, Emitted, transition, is_ok,
}
use lanxin_claw.Pairing.Lifecycle.{
  accept_pairing_request, handle_phone_confirmed, approve_desktop_pairing,
}
use lanxin_claw.Pairing.Safety.{
  IsRefused, IsConfirmable, approve_desktop-branches, confirmed-IsConfirmable,
}
use lanxin_claw.Pairing.Traces.{PairingCall, perform, after, IsPaired, paired-IsApproved}

abbrev iso : ℕ → String
iso ms = "deadline"

abbrev parse : String → Option ℕ
parse text = some 1005

abbrev deps : Deps
deps = record {
  desktop_device_id = "desk";
  desktop_display_name = "Desk";
  challenge_ttl_ms = some 5;
}

abbrev request : PairingRequest
request = record {
  pairing_id = "pair1";
  phone_device_id = "phone";
  phone_display_name = "Phone";
  capabilities = [];
}

abbrev session : PairingStatus → PairingSession
session status = record {
  pairing_id = "pair1";
  status = status;
  phone_device_id = "phone";
  phone_display_name = "Phone";
  desktop_device_id = "desk";
  desktop_display_name = "Desk";
  challenge = some "abc";
  expires_at = some "deadline";
  phone_confirmed_at = none;
  desktop_approved_at = none;
  paired_at = none;
  capabilities = [];
}

abbrev answer : PairingConfirmed
answer = record { pairing_id = "pair1"; challenge_response = "abc"; phone_confirmed_at = "t2" }

abbrev calls : List PairingCall
calls = PairingCall.approve 1004 "secret" ∷ PairingCall.confirm answer 1003 ∷ []

accepted :
    accept_pairing_request iso parse deps request 1000 "abc"
    ≡ some (
      session PairingStatus.pairing_requested,
      Emitted.challenge "phone" "pair1" "desk" "Desk" "abc" "deadline" ∷ [],
    )
unfolding accept_pairing_request transition can_transition_pairing_status
accepted = refl

paired :
    (after iso parse deps (session PairingStatus.pairing_requested) calls).status
    ≡ PairingStatus.paired
unfolding after perform handle_phone_confirmed approve_desktop_pairing transition
    can_transition_pairing_status
paired = refl

paired-IsApproved_example : IsPaired iso parse deps "abc" 1005 calls
paired-IsApproved_example =
    paired-IsApproved iso parse deps request 1000 "abc" (session PairingStatus.pairing_requested)
      (Emitted.challenge "phone" "pair1" "desk" "Desk" "abc" "deadline" ∷ []) calls refl accepted
      paired

confirmed :
    is_ok
      (handle_phone_confirmed iso parse
        (session PairingStatus.pairing_requested)
        answer
        1003).outcome
    ≡ true
unfolding handle_phone_confirmed transition can_transition_pairing_status
confirmed = refl

confirmed-IsConfirmable_example :
    IsConfirmable iso parse (session PairingStatus.pairing_requested) answer 1003
    × ((handle_phone_confirmed iso parse
          (session PairingStatus.pairing_requested)
          answer
          1003).session.status
        ≡ PairingStatus.phone_confirmed)
confirmed-IsConfirmable_example =
    confirmed-IsConfirmable iso parse (session PairingStatus.pairing_requested) answer 1003
      confirmed

approve_desktop-branches_example :
    let ready = session PairingStatus.phone_confirmed in
    let effect = approve_desktop_pairing iso parse deps ready 1004 "secret" in
    ((ready.status ≡ PairingStatus.phone_confirmed)
      × (effect.outcome ≡ Outcome.ok (some "secret"))
      × (effect.session.status ≡ PairingStatus.paired)
      × (effect.session.challenge ≡ none)
      × (effect.emitted
          ≡ Emitted.desktop_approved "phone" "pair1" "deadline"
            ∷ Emitted.completed "phone" "pair1" "desk" "secret" "deadline"
            ∷ []))
    ⊎ ((ready.status ≢ PairingStatus.phone_confirmed) × IsRefused ready effect)
approve_desktop-branches_example =
    approve_desktop-branches iso parse deps (session PairingStatus.phone_confirmed) 1004 "secret"
