-- ===== src/Pairing/Refusals.antt =====
-- The refusals of a pairing: what a wrong or late confirmation and a revocation do.
use lanxin_claw.Shared.{
  ℕ, String, ◌≡◌, ◌⊎◌, inl, inr, true, false, Option, none, some, arith, ◌==◌, Bool-cases,
  Option-cases, same,
}
use lanxin_claw.States.Pairing.{PairingStatus, pairing_status_enum, can_transition_pairing_status}
use lanxin_claw.Pairing.Session.{PairingSession, PairingConfirmed, Deps, is_ok}
use lanxin_claw.Pairing.Lifecycle.{
  handle_phone_confirmed, pending_challenge, confirm_with, reject_challenge, reject_target_status,
  revoke_or_reject_pairing,
}
use lanxin_claw.Pairing.Safety.{IsOver, IsRefused, transition_ok, requested_confirms}

module _ (iso : ℕ → String) (parse : String → Option ℕ) where
  -- A confirmation that is refused leaves the session alone or rejects it.
  reject_challenge-IsOver :
      (session : PairingSession) (code : String)
      → same session.status PairingStatus.pairing_requested ≡ true
      → (reject_challenge iso parse session code).session.status ≡ PairingStatus.pairing_rejected
  reject_challenge-IsOver session code requested =
      let moved =
        transition_ok (record session { challenge = none; expires_at = none })
          PairingStatus.pairing_rejected (requested_confirms session.status requested).1 in
      ground (arith, moved)

  confirm_with-refused :
      (session : PairingSession) (payload : PairingConfirmed) (now : ℕ)
      (challenge expires_at : String)
      → same session.status PairingStatus.pairing_requested ≡ true
      → is_ok (confirm_with iso parse session payload now challenge expires_at).outcome ≡ false
      → (confirm_with iso parse session payload now challenge expires_at).session.status
        ≡ PairingStatus.pairing_rejected
  confirm_with-refused session payload now challenge expires_at requested h =
      let moved =
        transition_ok session PairingStatus.phone_confirmed
          (requested_confirms session.status requested).0 in
      let expired = reject_challenge-IsOver session "pairing_challenge_expired" requested in
      let mismatch = reject_challenge-IsOver session "pairing_challenge_mismatch" requested in
      ground (arith, moved, expired, mismatch)

  pub confirmed-refused :
      (session : PairingSession) (payload : PairingConfirmed) (now : ℕ)
      → let effect = handle_phone_confirmed iso parse session payload now in
        is_ok effect.outcome ≡ false
        → (effect.session ≡ session) ⊎ (effect.session.status ≡ PairingStatus.pairing_rejected)
  unfolding handle_phone_confirmed
  confirmed-refused session payload now h =
      elim (Bool-cases (payload.pairing_id == session.pairing_id)) [
        | inr wrong ↦ inl (ground arith)
        | inl named ↦ elim (Bool-cases (same session.status PairingStatus.pairing_requested)) [
          | inr early ↦ inl (ground arith)
          | inl requested ↦ elim (Option-cases (pending_challenge iso parse session)) [
            | inl gone ↦ inl (ground arith)
            | inr ((challenge, expires_at), pending) ↦
                let opened : handle_phone_confirmed iso parse session payload now
                    ≡ confirm_with iso parse session payload now challenge expires_at =
                  ground arith in
                inr (
                  rw opened (
                    confirm_with-refused session payload now challenge expires_at requested
                      (rw opened at h)))
          ]
        ]
      ]

  -- A revocation refuses and leaves the session alone, or ends the pairing.
  reject_target-IsOver :
      (status target : PairingStatus)
      → reject_target_status status ≡ some target
      → IsOver target × (can_transition_pairing_status status target ≡ true)
  unfolding reject_target_status can_transition_pairing_status
  reject_target-IsOver status target h = ground arith

  pub revoke-branches :
      (deps : Deps) (session : PairingSession) (reason : String) (now : ℕ)
      → let effect = revoke_or_reject_pairing iso parse deps session reason now in
        IsRefused session effect
        ⊎ ((is_ok effect.outcome ≡ true)
            × IsOver effect.session.status
            × (effect.session.challenge ≡ none))
  unfolding revoke_or_reject_pairing
  revoke-branches deps session reason now =
      elim (Option-cases (reject_target_status session.status)) [
        | inl ended ↦ inl (ground arith, ground arith, ground arith)
        | inr (target, e) ↦
            let (over, legal) = reject_target-IsOver session.status target e in
            let moved = transition_ok session target legal in
            inr (ground (arith, moved), ground (arith, moved, over), ground (arith, moved))
      ]
