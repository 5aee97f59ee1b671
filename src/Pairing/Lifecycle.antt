-- ===== src/Pairing/Lifecycle.antt =====
-- apps/companion/src/pairing/lifecycle.ts: the four operations on a pairing. The session object is
-- changed in place, so each returns the session as it is afterwards, what it emitted, and its
-- answer. `iso` is `new Date(ms).toISOString()` and `parse` is `Date.parse`, with `none` for `NaN`.
use lanxin_claw.Shared.{
  ℕ, ◌+◌, ◌*◌, String, Bool, true, not, ◌&&◌, List, [], ◌∷◌, ◌++◌, Option, none, some,
  if◌then◌else◌, ◌==◌, truthy, ltb, same,
}
use lanxin_claw.States.Pairing.{PairingStatus, pairing_status_enum, can_transition_pairing_status}
use lanxin_claw.Pairing.Session.{
  PairingSession, PairingRequest, PairingConfirmed, Deps, create_empty_pairing_session, Outcome,
  Emitted, transition, verify_challenge_response,
}

abbrev pub default_challenge_ttl_ms : ℕ
default_challenge_ttl_ms = 5 * 60000

abbrev pub ttl_of : Option ℕ → ℕ
ttl_of none = default_challenge_ttl_ms
ttl_of (some ms) = ms

-- The session after an operation, the messages it emitted in their order, and its answer.
pub record Effect : Type 0 where
  pub session : PairingSession
  pub emitted : List Emitted
  pub outcome : Outcome

abbrev pub refuse : PairingSession → String → Effect
refuse session code = record { session = session; emitted = []; outcome = Outcome.error code }

unfoldable pub reject_target_status : PairingStatus → Option PairingStatus
reject_target_status status =
    if same status PairingStatus.paired
    then some PairingStatus.revoked
    else if can_transition_pairing_status status PairingStatus.pairing_rejected
    then some PairingStatus.pairing_rejected
    else if can_transition_pairing_status status PairingStatus.revoked
    then some PairingStatus.revoked
    else none

module _ (iso : ℕ → String) (parse : String → Option ℕ) where
  -- `challenge` is what `createPairingChallenge` drew. `none` is the error of the transition.
  unfoldable pub accept_pairing_request :
      Deps
      → PairingRequest
      → (now : ℕ) (challenge : String) → Option (PairingSession × List Emitted)
  accept_pairing_request deps payload now challenge =
      elim (transition (create_empty_pairing_session payload deps)
        PairingStatus.pairing_requested) [
          | none ↦ none
          | some session ↦
              let expires_at = iso (now + ttl_of deps.challenge_ttl_ms) in
              some (
                record session { challenge = some challenge; expires_at = some expires_at },
                Emitted.challenge payload.phone_device_id payload.pairing_id deps.desktop_device_id
                      deps.desktop_display_name challenge expires_at
                    ∷ [],
              )
        ]

  -- The session is rejected and its challenge is gone; the answer of `transition` is not read.
  abbrev pub reject_challenge : PairingSession → String → Effect
  reject_challenge session code =
      let cleared = record session { challenge = none; expires_at = none } in
      elim (transition cleared PairingStatus.pairing_rejected) [
        | none ↦ refuse cleared code
        | some rejected ↦ refuse rejected code
      ]

  -- `!Number.isFinite(expiresAtMs) || now() > expiresAtMs`.
  abbrev pub is_expired : String → ℕ → Bool
  is_expired expires_at now = elim (parse expires_at) [ none ↦ true | some ms ↦ ltb ms now ]

  abbrev pub confirm_with : PairingSession → PairingConfirmed → ℕ → String → String → Effect
  confirm_with session payload now challenge expires_at =
      if is_expired expires_at now
      then reject_challenge session "pairing_challenge_expired"
      else if not (verify_challenge_response challenge payload.challenge_response)
      then reject_challenge session "pairing_challenge_mismatch"
      else elim (transition session PairingStatus.phone_confirmed) [
        | none ↦ refuse session "pairing_illegal_transition"
        | some moved ↦ record {
          session = record moved { phone_confirmed_at = some payload.phone_confirmed_at };
          emitted = [];
          outcome = Outcome.ok none;
        }
      ]

  -- `!session.challenge || !session.expiresAt`, with the texts where both are there.
  abbrev pub pending_challenge : PairingSession → Option (String × String)
  pending_challenge session = elim session.challenge [
    | none ↦ none
    | some challenge ↦ elim session.expires_at [
      | none ↦ none
      | some expires_at ↦
          if truthy (some challenge) && truthy (some expires_at)
          then some (challenge, expires_at)
          else none
    ]
  ]

  unfoldable pub handle_phone_confirmed : PairingSession → PairingConfirmed → ℕ → Effect
  handle_phone_confirmed session payload now =
      if not (payload.pairing_id == session.pairing_id)
      then refuse session "pairing_id_mismatch"
      else if not (same session.status PairingStatus.pairing_requested)
      then refuse session "pairing_challenge_missing"
      else elim (pending_challenge session) [
        | none ↦ refuse session "pairing_challenge_missing"
        | some (challenge, expires_at) ↦ confirm_with session payload now challenge expires_at
      ]

  -- The second half of the approval, after `pairing.desktop_approved` was emitted.
  abbrev pub complete_pairing : Deps → PairingSession → String → String → List Emitted → Effect
  complete_pairing deps session at secret emitted = elim (transition session PairingStatus.paired) [
    | none ↦ record {
      session = session;
      emitted = emitted;
      outcome = Outcome.error "pairing_illegal_transition";
    }
    | some paired ↦ record {
      session = record paired { paired_at = some at; challenge = none; expires_at = none };
      emitted =
          emitted
          ++ Emitted.completed session.phone_device_id session.pairing_id deps.desktop_device_id
              secret at
            ∷ [];
      outcome = Outcome.ok (some secret);
    }
  ]

  -- `secret` is the given secret, or the one that `createPairingSecret` drew.
  unfoldable pub approve_desktop_pairing :
      Deps → PairingSession → (now : ℕ) (secret : String) → Effect
  approve_desktop_pairing deps session now secret =
      if not (same session.status PairingStatus.phone_confirmed)
      then refuse session "pairing_desktop_premature"
      else elim (transition session PairingStatus.desktop_confirmed) [
        | none ↦ refuse session "pairing_illegal_transition"
        | some moved ↦
            let at = iso now in
            complete_pairing deps (record moved { desktop_approved_at = some at }) at secret
              (Emitted.desktop_approved moved.phone_device_id moved.pairing_id at ∷ [])
      ]

  unfoldable pub revoke_or_reject_pairing :
      Deps → PairingSession → (reason : String) (now : ℕ) → Effect
  revoke_or_reject_pairing deps session reason now = elim (reject_target_status session.status) [
    | none ↦ refuse session "pairing_already_terminal"
    | some target ↦ elim (transition session target) [
      | none ↦ refuse session "pairing_illegal_transition"
      | some moved ↦ record {
        session = record moved { challenge = none; expires_at = none };
        emitted =
            Emitted.revoked moved.phone_device_id moved.pairing_id deps.desktop_device_id reason
              (iso now)
            ∷ [];
        outcome = Outcome.ok none;
      }
    ]
  ]
