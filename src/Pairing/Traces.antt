-- ===== src/Pairing/Traces.antt =====
-- Any sequence of operations on a new pairing: how it comes to be paired.
use lanxin_claw.Shared.{
  ℕ, ◌+◌, ◌≤◌, String, ◌≡◌, refl, ap, inl, inr, List, [], ◌∷◌, ◌++◌, Option, some, arith,
  Bool-cases, Memᴰ,
}
use lanxin_claw.States.Pairing.{PairingStatus, pairing_status_enum, can_transition_pairing_status}
use lanxin_claw.Pairing.Session.{
  PairingSession, PairingRequest, PairingConfirmed, Deps, Emitted, is_ok, transition,
}
use lanxin_claw.Pairing.Lifecycle.{
  ttl_of, accept_pairing_request, handle_phone_confirmed, approve_desktop_pairing,
  revoke_or_reject_pairing,
}
use lanxin_claw.Pairing.Safety.{
  IsOver, IsConfirmable, approve_desktop-branches, confirmed-IsConfirmable,
}
use lanxin_claw.Pairing.Refusals.{confirmed-refused, revoke-branches}

pub data PairingCall : Type 0 where
  confirm : PairingConfirmed → (now : ℕ) → PairingCall
  approve : (now : ℕ) (secret : String) → PairingCall
  revoke : (reason : String) (now : ℕ) → PairingCall

module _ (iso : ℕ → String) (parse : String → Option ℕ) (deps : Deps) where
  unfoldable pub perform : PairingCall → PairingSession → PairingSession
  perform (PairingCall.confirm payload now) session =
      (handle_phone_confirmed iso parse session payload now).session
  perform (PairingCall.approve now secret) session =
      (approve_desktop_pairing iso parse deps session now secret).session
  perform (PairingCall.revoke reason now) session =
      (revoke_or_reject_pairing iso parse deps session reason now).session

  -- The session after some calls, the latest first.
  unfoldable pub after : PairingSession → List PairingCall → PairingSession
  after session [] = session
  after session (call ∷ earlier) = perform call (after session earlier)

  -- The phone answered with the challenge, in time.
  abbrev pub IsConfirmed : (challenge : String) (deadline : ℕ) → List PairingCall → Type 0
  IsConfirmed challenge deadline calls =
      (payload : PairingConfirmed) × (now : ℕ) × Memᴰ (PairingCall.confirm payload now) calls
      × (payload.challenge_response ≡ challenge)
      × (now ≤ deadline)

  -- The desktop approved after the phone's confirmation.
  pub record IsPaired (challenge : String) (deadline : ℕ) (calls : List PairingCall) : Type 0 where
    pub later : List PairingCall
    pub earlier : List PairingCall
    pub now : ℕ
    pub secret : String
    pub order : calls ≡ later ++ PairingCall.approve now secret ∷ earlier
    pub confirmed : IsConfirmed challenge deadline earlier

  data IsTraced (challenge : String) (deadline : ℕ) (calls : List PairingCall)
      (session : PairingSession) : Type 0 where
    requested :
        session.status ≡ PairingStatus.pairing_requested
        → session.challenge ≡ some challenge
        → session.expires_at ≡ some (iso deadline)
        → IsTraced challenge deadline calls session
    confirmed :
        session.status ≡ PairingStatus.phone_confirmed
        → IsConfirmed challenge deadline calls
        → IsTraced challenge deadline calls session
    paired :
        session.status ≡ PairingStatus.paired
        → IsPaired challenge deadline calls
        → IsTraced challenge deadline calls session
    over : IsOver session.status → IsTraced challenge deadline calls session

  module _ (challenge : String) (deadline : ℕ)
      (parse-iso : parse (iso deadline) ≡ some deadline) where
    IsTraced-later :
        (call : PairingCall) (calls : List PairingCall) (session : PairingSession)
        → IsTraced challenge deadline calls session
        → IsTraced challenge deadline (call ∷ calls) session
    IsTraced-later call calls session (IsTraced.requested s c e) = IsTraced.requested s c e
    IsTraced-later call calls session (IsTraced.confirmed s (payload, now, m, answer, early)) =
        IsTraced.confirmed s (payload, now, Memᴰ.tail m, answer, early)
    IsTraced-later call calls session (IsTraced.paired s p) = IsTraced.paired s (record {
      later = call ∷ p.later;
      earlier = p.earlier;
      now = p.now;
      secret = p.secret;
      order = ap (λ xs. call ∷ xs) p.order;
      confirmed = p.confirmed;
    })
    IsTraced-later call calls session (IsTraced.over o) = IsTraced.over o

    -- The challenge and the deadline of a confirmation that was accepted are those of the request.
    accepted-IsConfirmed :
        (payload : PairingConfirmed) (now : ℕ) (calls : List PairingCall) (session : PairingSession)
        → IsTraced challenge deadline calls session
        → IsConfirmable iso parse session payload now
        → IsConfirmed challenge deadline (PairingCall.confirm payload now ∷ calls)
    accepted-IsConfirmed payload now calls session (IsTraced.requested s c e)
          (name, status, answer, expires_at, limit, expiry, parsed, early) =
        let at : expires_at ≡ iso deadline = ground arith in
        let limit_is : limit ≡ deadline = ground (arith, rw at at parsed, parse-iso) in
        (payload, now, Memᴰ.head refl, ground arith, ground arith)
    accepted-IsConfirmed payload now calls session (IsTraced.confirmed s p) why =
        let status = why.1 in ground arith
    accepted-IsConfirmed payload now calls session (IsTraced.paired s p) why =
        let status = why.1 in ground arith
    accepted-IsConfirmed payload now calls session (IsTraced.over (inl s)) why =
        let status = why.1 in ground arith
    accepted-IsConfirmed payload now calls session (IsTraced.over (inr s)) why =
        let status = why.1 in ground arith

    approved-IsPaired :
        (now : ℕ) (secret : String) (calls : List PairingCall) (session : PairingSession)
        → IsTraced challenge deadline calls session
        → session.status ≡ PairingStatus.phone_confirmed
        → IsPaired challenge deadline (PairingCall.approve now secret ∷ calls)
    approved-IsPaired now secret calls session (IsTraced.confirmed s p) ready = record {
      later = [];
      earlier = calls;
      now = now;
      secret = secret;
      order = refl;
      confirmed = p;
    }
    approved-IsPaired now secret calls session (IsTraced.requested s c e) ready = ground arith
    approved-IsPaired now secret calls session (IsTraced.paired s p) ready = ground arith
    approved-IsPaired now secret calls session (IsTraced.over (inl s)) ready = ground arith
    approved-IsPaired now secret calls session (IsTraced.over (inr s)) ready = ground arith

    perform-IsTraced :
        (call : PairingCall) (calls : List PairingCall) (session : PairingSession)
        → IsTraced challenge deadline calls session
        → IsTraced challenge deadline (call ∷ calls) (perform call session)
    unfolding perform
    perform-IsTraced (PairingCall.confirm payload now) calls session t =
        elim (Bool-cases (is_ok (handle_phone_confirmed iso parse session payload now).outcome)) [
          | inl accepted ↦
              let (why, status) = confirmed-IsConfirmable iso parse session payload now accepted in
              IsTraced.confirmed status (accepted-IsConfirmed payload now calls session t why)
          | inr refused ↦ elim (confirmed-refused iso parse session payload now refused) [
            | inl kept ↦ rw kept (IsTraced-later _ calls session t)
            | inr rejected ↦ IsTraced.over (inl rejected)
          ]
        ]
    perform-IsTraced (PairingCall.approve now secret) calls session t =
        elim (approve_desktop-branches iso parse deps session now secret) [
          | inr (early, refused) ↦ rw refused.1 (IsTraced-later _ calls session t)
          | inl (ready, answer, status, gone, sent) ↦
              IsTraced.paired status (approved-IsPaired now secret calls session t ready)
        ]
    perform-IsTraced (PairingCall.revoke reason now) calls session t =
        elim (revoke-branches iso parse deps session reason now) [
          | inl (refused, kept, silent) ↦ rw kept (IsTraced-later _ calls session t)
          | inr (accepted, ended, gone) ↦ IsTraced.over ended
        ]

    after-IsTraced :
        (session : PairingSession)
        → IsTraced challenge deadline [] session
        → (calls : List PairingCall) → IsTraced challenge deadline calls (after session calls)
    unfolding after
    after-IsTraced session t [] = t
    after-IsTraced session t (call ∷ calls) =
        perform-IsTraced call calls (after session calls) (after-IsTraced session t calls)

paired-IsPaired :
    (iso : ℕ → String) (parse : String → Option ℕ) (deps : Deps) (challenge : String) (deadline : ℕ)
    (calls : List PairingCall) (session : PairingSession)
    → IsTraced iso parse deps challenge deadline calls session
    → session.status ≡ PairingStatus.paired
    → IsPaired iso parse deps challenge deadline calls
paired-IsPaired iso parse deps challenge deadline calls session (IsTraced.paired s p) e = p
paired-IsPaired iso parse deps challenge deadline calls session (IsTraced.requested s c f) e =
    ground arith
paired-IsPaired iso parse deps challenge deadline calls session (IsTraced.confirmed s p) e =
    ground arith
paired-IsPaired iso parse deps challenge deadline calls session (IsTraced.over (inl s)) e =
    ground arith
paired-IsPaired iso parse deps challenge deadline calls session (IsTraced.over (inr s)) e =
    ground arith

accepted-IsTraced :
    (iso : ℕ → String) (parse : String → Option ℕ) (deps : Deps) (payload : PairingRequest)
    (start : ℕ) (challenge : String) (session : PairingSession) (emitted : List Emitted)
    → accept_pairing_request iso parse deps payload start challenge ≡ some (session, emitted)
    → IsTraced iso parse deps challenge (start + ttl_of deps.challenge_ttl_ms) [] session
unfolding accept_pairing_request transition can_transition_pairing_status
accepted-IsTraced iso parse deps payload start challenge session emitted e =
    IsTraced.requested (ground arith) (ground arith) (ground arith)

-- A pairing request that was accepted and any calls after it: if the pairing is then paired, the
-- desktop's approval was called after a confirmation whose response is the challenge that was sent
-- to the phone, called no later than the challenge lives. The text of that deadline must read back
-- as the time it was made of.
pub paired-IsApproved :
    (iso : ℕ → String) (parse : String → Option ℕ) (deps : Deps) (payload : PairingRequest)
    (start : ℕ) (challenge : String) (session : PairingSession) (emitted : List Emitted)
    (calls : List PairingCall)
    → parse (iso (start + ttl_of deps.challenge_ttl_ms))
      ≡ some (start + ttl_of deps.challenge_ttl_ms)
    → accept_pairing_request iso parse deps payload start challenge ≡ some (session, emitted)
    → (after iso parse deps session calls).status ≡ PairingStatus.paired
    → IsPaired iso parse deps challenge (start + ttl_of deps.challenge_ttl_ms) calls
paired-IsApproved iso parse deps payload start challenge session emitted calls readable accepted e =
    paired-IsPaired iso parse deps challenge (start + ttl_of deps.challenge_ttl_ms) calls
      (after iso parse deps session calls)
      (after-IsTraced iso parse deps challenge (start + ttl_of deps.challenge_ttl_ms) readable
        session (accepted-IsTraced iso parse deps payload start challenge session emitted accepted)
        calls)
      e
