-- ===== src/Pairing/Safety.antt =====
-- What each operation on a pairing promises, on all its branches.
use lanxin_claw.Shared.{
  ℕ, ◌≤◌, String, ◌≡◌, ◌≢◌, refl, ap, ◌∙◌, ◌⊎◌, inl, inr, true, false, [], ◌∷◌, Option, none, some,
  arith, ◌==◌, eq_iff, Bool-cases, Option-cases, same, eq_of_same, same_refl,
}
use lanxin_claw.States.Pairing.{PairingStatus, pairing_status_enum, can_transition_pairing_status}
use lanxin_claw.Pairing.Session.{
  PairingSession, PairingConfirmed, Deps, Outcome, Emitted, is_ok, transition,
}
use lanxin_claw.Pairing.Lifecycle.{
  Effect, handle_phone_confirmed, approve_desktop_pairing, pending_challenge, confirm_with,
  is_expired,
}

abbrev pub IsOver : PairingStatus → Type 0
IsOver status = (status ≡ PairingStatus.pairing_rejected) ⊎ (status ≡ PairingStatus.revoked)

-- The operation refused, emitted nothing and left the session alone.
abbrev pub IsRefused : PairingSession → Effect → Type 0
IsRefused session effect =
    (is_ok effect.outcome ≡ false) × (effect.session ≡ session) × (effect.emitted ≡ [])

pub transition_ok :
    (session : PairingSession) (to : PairingStatus)
    → can_transition_pairing_status session.status to ≡ true
    → transition session to ≡ some (record session { status = to })
unfolding transition
transition_ok session to h = ground arith

transition_no :
    (session : PairingSession) (to : PairingStatus)
    → can_transition_pairing_status session.status to ≡ false
    → transition session to ≡ none
unfolding transition
transition_no session to h = ground arith

can_move :
    (s from to : PairingStatus)
    → s ≡ from
    → can_transition_pairing_status from to ≡ true
    → can_transition_pairing_status s to ≡ true
can_move s from to e h = rw e h

pub requested_confirms :
    (s : PairingStatus)
    → same s PairingStatus.pairing_requested ≡ true
    → (can_transition_pairing_status s PairingStatus.phone_confirmed ≡ true)
      × (can_transition_pairing_status s PairingStatus.pairing_rejected ≡ true)
unfolding can_transition_pairing_status
requested_confirms s h = ground arith

confirmed_approves :
    (s : PairingStatus)
    → same s PairingStatus.phone_confirmed ≡ true
    → can_transition_pairing_status s PairingStatus.desktop_confirmed ≡ true
unfolding can_transition_pairing_status
confirmed_approves s h = ground arith

desktop_pairs :
    can_transition_pairing_status PairingStatus.desktop_confirmed PairingStatus.paired ≡ true
unfolding can_transition_pairing_status
desktop_pairs = refl

module _ (iso : ℕ → String) (parse : String → Option ℕ) where
  -- The desktop's approval. After the phone's confirmation it pairs: the two messages go out, the
  -- second with the secret that the answer returns, and no challenge is left. In any other status
  -- it refuses, emits nothing and leaves the session alone.
  pub approve_desktop-branches :
      (deps : Deps) (session : PairingSession) (now : ℕ) (secret : String)
      → let effect = approve_desktop_pairing iso parse deps session now secret in
        ((session.status ≡ PairingStatus.phone_confirmed)
          × (effect.outcome ≡ Outcome.ok (some secret))
          × (effect.session.status ≡ PairingStatus.paired)
          × (effect.session.challenge ≡ none)
          × (effect.emitted
              ≡ Emitted.desktop_approved session.phone_device_id session.pairing_id (iso now)
                ∷ Emitted.completed session.phone_device_id session.pairing_id
                    deps.desktop_device_id secret
                    (iso now)
                ∷ []))
        ⊎ ((session.status ≢ PairingStatus.phone_confirmed) × IsRefused session effect)
  unfolding approve_desktop_pairing
  approve_desktop-branches deps session now secret =
      elim (Bool-cases (same session.status PairingStatus.phone_confirmed)) [
        | inl confirmed ↦
            let moved =
              transition_ok session PairingStatus.desktop_confirmed
                (confirmed_approves session.status confirmed) in
            let paired =
              transition_ok
                (record session {
                  status = PairingStatus.desktop_confirmed;
                  desktop_approved_at = some (iso now);
                })
                PairingStatus.paired desktop_pairs in
            let equal = eq_of_same session.status PairingStatus.phone_confirmed confirmed in
            inl (
              equal,
              ground (arith, moved, paired),
              ground (arith, moved, paired),
              ground (arith, moved, paired),
              ground (arith, moved, paired),
            )
        | inr other ↦ inr (
          (λ e. ground (arith, same_refl PairingStatus.phone_confirmed)),
          rw (approve_desktop_pairing, other) (refl, refl, refl),
        )
      ]

  pending_some :
      (session : PairingSession) (challenge expires_at : String)
      → pending_challenge iso parse session ≡ some (challenge, expires_at)
      → (session.challenge ≡ some challenge) × (session.expires_at ≡ some expires_at)
  pending_some session challenge expires_at h = ground arith

  confirm_with-ok :
      (session : PairingSession) (payload : PairingConfirmed) (now : ℕ)
      (challenge expires_at : String)
      → same session.status PairingStatus.pairing_requested ≡ true
      → is_ok (confirm_with iso parse session payload now challenge expires_at).outcome ≡ true
      → (is_expired iso parse expires_at now ≡ false)
        × (challenge ≡ payload.challenge_response)
        × ((confirm_with iso parse session payload now challenge expires_at).session.status
            ≡ PairingStatus.phone_confirmed)
  confirm_with-ok session payload now challenge expires_at requested h =
      let moved =
        transition_ok session PairingStatus.phone_confirmed
          (requested_confirms session.status requested).0 in
      ground (arith, moved, eq_iff challenge payload.challenge_response)

  not_expired :
      (expires_at : String) (now : ℕ)
      → is_expired iso parse expires_at now ≡ false
      → (deadline : ℕ) × (parse expires_at ≡ some deadline) × (now ≤ deadline)
  not_expired expires_at now h = elim (Option-cases (parse expires_at)) [
    | inl garbage ↦ ground arith
    | inr (deadline, e) ↦ (deadline, e, ground arith)
  ]

  -- What a confirmation has to be to be accepted.
  abbrev pub IsConfirmable : PairingSession → PairingConfirmed → ℕ → Type 0
  IsConfirmable session payload now =
      (payload.pairing_id ≡ session.pairing_id)
      × (session.status ≡ PairingStatus.pairing_requested)
      × (session.challenge ≡ some payload.challenge_response)
      × (expires_at : String) × (deadline : ℕ) × (session.expires_at ≡ some expires_at)
      × (parse expires_at ≡ some deadline)
      × (now ≤ deadline)

  -- A confirmation is accepted only if it names the session's pairing, the phone's answer is still
  -- expected, the response is the challenge of the session, and it comes no later than the
  -- session's deadline. The phone's side is then confirmed.
  pub confirmed-IsConfirmable :
      (session : PairingSession) (payload : PairingConfirmed) (now : ℕ)
      → let effect = handle_phone_confirmed iso parse session payload now in
        is_ok effect.outcome ≡ true
        → IsConfirmable session payload now
          × (effect.session.status ≡ PairingStatus.phone_confirmed)
  unfolding handle_phone_confirmed
  confirmed-IsConfirmable session payload now h =
      elim (Bool-cases (payload.pairing_id == session.pairing_id)) [
        | inr wrong ↦ ground arith
        | inl named ↦ elim (Bool-cases (same session.status PairingStatus.pairing_requested)) [
          | inr early ↦ ground arith
          | inl requested ↦ elim (Option-cases (pending_challenge iso parse session)) [
            | inl none_pending ↦ ground arith
            | inr ((challenge, expires_at), pending) ↦
                let opened : handle_phone_confirmed iso parse session payload now
                    ≡ confirm_with iso parse session payload now challenge expires_at =
                  ground arith in
                let (alive, answer, status) =
                  confirm_with-ok session payload now challenge expires_at requested
                    (rw opened at h) in
                let (deadline, parsed, early) = not_expired expires_at now alive in
                let (has_challenge, has_expiry) =
                  pending_some session challenge expires_at pending in
                (
                  (
                    (eq_iff payload.pairing_id session.pairing_id).0 named,
                    eq_of_same session.status PairingStatus.pairing_requested requested,
                    has_challenge ∙ ap some answer,
                    expires_at,
                    deadline,
                    has_expiry,
                    parsed,
                    early,
                  ),
                  rw opened status,
                )
          ]
        ]
      ]
