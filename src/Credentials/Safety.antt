-- ===== src/Credentials/Safety.antt =====
-- Which sessions are let in.
use mathlib.Core.Path.{subst}
use lanxin_claw.Shared.{
  String, ◌≡◌, ◌≢◌, refl, ap, ◌∙◌, inl, inr, true, false, List, [], ◌∷◌, Option, none, some, arith,
  ◌==◌, eq_iff, filter, find, All, All-append, All-filter, Bool-cases, Option-cases,
}
use lanxin_claw.Credentials.Key.{device_pair_key}
use lanxin_claw.Credentials.Store.{
  Identity, SavePairedIdentityInput, SessionOpen, RequiredAction, ReconnectAuth, key_of,
  save_paired_identity, find_identity, is_active, revoked_record, revoke_loop, revoke_identity,
  verify_session_auth_proof, authenticate_identity, authenticate_reconnect,
}

-- Every record with this key is revoked.
abbrev pub IsRevokedKey : String → List Identity → Type 0
IsRevokedKey key records = All (λ r. key_of r ≡ key → is_active r ≡ false) records

find-revoked :
    (key : String) (records : List Identity) (r : Identity)
    → IsRevokedKey key records
    → find (λ r. key_of r == key) records ≡ some r
    → is_active r ≡ false
find-revoked key [] r h e = ground arith
find-revoked key (x ∷ rest) r h e = elim (Bool-cases (key_of x == key)) [
  | inl hit ↦ ground (arith, h.0 ((eq_iff (key_of x) key).0 hit))
  | inr miss ↦ find-revoked key rest r h.1 (ground arith)
]

revoke_loop-IsRevokedKey :
    (key reason at : String) (records : List Identity) (updated : Option Identity)
    → IsRevokedKey key (revoke_loop key reason at records updated).0
revoke_loop-IsRevokedKey key reason at [] updated = tt
revoke_loop-IsRevokedKey key reason at (r ∷ rest) updated =
    ((λ e. ground (arith, eq_iff (key_of r) key)), revoke_loop-IsRevokedKey key reason at rest _)

revoke_loop-kept :
    (key reason at : String) (records : List Identity) (r : Identity)
    → (revoke_loop key reason at records (some r)).1 ≢ none
revoke_loop-kept key reason at [] r e = ground arith
revoke_loop-kept key reason at (x ∷ rest) r e = elim (Bool-cases (key_of x == key)) [
  | inl hit ↦ ground (arith, revoke_loop-kept key reason at rest (revoked_record key reason at x))
  | inr miss ↦ revoke_loop-kept key reason at rest r (rw miss at e)
]

revoke_loop-missing :
    (key reason at : String) (records : List Identity)
    → (revoke_loop key reason at records none).1 ≡ none
    → IsRevokedKey key records
revoke_loop-missing key reason at [] e = tt
revoke_loop-missing key reason at (x ∷ rest) e = elim (Bool-cases (key_of x == key)) [
  | inl hit ↦ ground (arith, revoke_loop-kept key reason at rest (revoked_record key reason at x))
  | inr miss ↦ (
    (λ named. ground (arith, eq_iff (key_of x) key)),
    revoke_loop-missing key reason at rest (rw miss at e),
  )
]

revoke-IsRevokedKey :
    (phone desktop reason at : String) (records : List Identity)
    → IsRevokedKey
        (device_pair_key phone desktop)
        (revoke_identity phone desktop reason at records).0
unfolding revoke_identity
revoke-IsRevokedKey phone desktop reason at records =
    let key = device_pair_key phone desktop in
    elim (Option-cases (revoke_loop key reason at records none).1) [
      | inl missing ↦
          rw (revoke_identity, missing) (revoke_loop-missing key reason at records missing)
      | inr (r, found) ↦
          rw (revoke_identity, found) (revoke_loop-IsRevokedKey key reason at records none)
    ]

-- The calls that change the stored identities.
pub data IdentityCall : Type 0 where
  save : SavePairedIdentityInput → (secret : String) → IdentityCall
  revoke : (phone desktop reason at : String) → IdentityCall

unfoldable pub perform : IdentityCall → List Identity → List Identity
perform (IdentityCall.save input secret) records = (save_paired_identity input secret records).0
perform (IdentityCall.revoke phone desktop reason at) records =
    (revoke_identity phone desktop reason at records).0

-- The calls in their order.
unfoldable pub perform_all : List IdentityCall → List Identity → List Identity
perform_all [] records = records
perform_all (call ∷ rest) records = perform_all rest (perform call records)

-- The call does not pair the devices of this key again.
abbrev pub IsOtherCall : String → IdentityCall → Type 0
IsOtherCall key (IdentityCall.save input secret) =
    device_pair_key input.phone_device_id input.desktop_device_id ≢ key
IsOtherCall key (IdentityCall.revoke phone desktop reason at) = Unit

revoke_loop-stays :
    (key other reason at : String) (records : List Identity) (updated : Option Identity)
    → IsRevokedKey key records
    → IsRevokedKey key (revoke_loop other reason at records updated).0
revoke_loop-stays key other reason at [] updated h = tt
revoke_loop-stays key other reason at (r ∷ rest) updated h =
    ((λ e. ground (arith, h.0)), revoke_loop-stays key other reason at rest _ h.1)

perform-IsRevokedKey :
    (key : String) (call : IdentityCall) (records : List Identity)
    → IsOtherCall key call
    → IsRevokedKey key records
    → IsRevokedKey key (perform call records)
unfolding perform save_paired_identity revoke_identity
perform-IsRevokedKey key (IdentityCall.save input secret) records other h =
    All-append (λ r. key_of r ≡ key → is_active r ≡ false) (filter _ records) _
      (All-filter (λ r. key_of r ≡ key → is_active r ≡ false) _ records h)
      ((λ e. ground (arith, other e)), tt)
perform-IsRevokedKey key (IdentityCall.revoke phone desktop reason at) records other h =
    elim (Option-cases (revoke_loop (device_pair_key phone desktop) reason at records none).1) [
      | inl missing ↦ rw (perform, revoke_identity, missing) h
      | inr (r, found) ↦
          rw (perform, revoke_identity, found)
            (revoke_loop-stays key (device_pair_key phone desktop) reason at records none h)
    ]

perform_all-IsRevokedKey :
    (key : String) (calls : List IdentityCall) (records : List Identity)
    → All (IsOtherCall key) calls
    → IsRevokedKey key records
    → IsRevokedKey key (perform_all calls records)
unfolding perform_all
perform_all-IsRevokedKey key [] records others h = h
perform_all-IsRevokedKey key (call ∷ rest) records others h =
    perform_all-IsRevokedKey key rest (perform call records) others.1
      (perform-IsRevokedKey key call records others.0 h)

module _ (create_session_auth_proof : String → String → String) where
  authenticate_identity-inactive :
      (payload : SessionOpen) (identity : Identity) (secret : Option String)
      → is_active identity ≡ false
      → authenticate_identity create_session_auth_proof payload identity secret
        ≡ ReconnectAuth.refused RequiredAction.repair
  authenticate_identity-inactive payload identity none h = refl
  authenticate_identity-inactive payload identity (some secret) h = ground arith

  -- Once the pairing of a phone with a desktop is revoked, no session of theirs is let in, with
  -- whatever proof and after whatever saves and revocations of other pairings: the answer is that
  -- they have to pair again.
  pub revoked-refused :
      (phone desktop reason at : String) (records : List Identity) (calls : List IdentityCall)
      (payload : SessionOpen)
      → payload.phone_device_id ≡ phone
      → payload.desktop_device_id ≡ desktop
      → All (IsOtherCall (device_pair_key phone desktop)) calls
      → authenticate_reconnect create_session_auth_proof payload
          (perform_all calls (revoke_identity phone desktop reason at records).0)
        ≡ ReconnectAuth.refused RequiredAction.repair
  unfolding authenticate_reconnect find_identity
  revoked-refused phone desktop reason at records calls payload p d others =
      let key = device_pair_key phone desktop in
      let now = perform_all calls (revoke_identity phone desktop reason at records).0 in
      let h : IsRevokedKey key now =
        perform_all-IsRevokedKey key calls _ others
          (revoke-IsRevokedKey phone desktop reason at records) in
      elim (Option-cases (find (λ r. key_of r == key) now)) [
        | inl missing ↦ ground arith
        | inr (r, found) ↦ ground (
          arith,
          authenticate_identity-inactive payload r r.pairing_secret
              (find-revoked key now r h found),
        )
      ]

  verify_true :
      (secret session_id proof : String)
      → verify_session_auth_proof create_session_auth_proof secret session_id proof ≡ true
      → (secret ≢ "") × (session_id ≢ "") × (create_session_auth_proof secret session_id ≡ proof)
  unfolding verify_session_auth_proof
  verify_true secret session_id proof h = (
    (λ e. ground (arith, eq_iff secret "")),
    (λ e. ground (arith, eq_iff session_id "")),
    ground (arith, eq_iff (create_session_auth_proof secret session_id) proof),
  )

  authenticate_identity-ok :
      (payload : SessionOpen) (r identity : Identity) (found : Option String)
      → authenticate_identity create_session_auth_proof payload r found ≡ ReconnectAuth.ok identity
      → (r ≡ identity)
        × (is_active r ≡ true)
        × (secret : String) × (found ≡ some secret)
        × (verify_session_auth_proof create_session_auth_proof secret payload.session_id
              payload.auth_proof
            ≡ true)
  authenticate_identity-ok payload r identity none e = ground arith
  authenticate_identity-ok payload r identity (some secret) e =
      (ground arith, ground arith, secret, refl, ground arith)

  -- A session is let in only for the first record of its two devices, which is active and has a
  -- secret, and only with the proof that this secret gives for the session's id.
  pub authenticate_ok :
      (payload : SessionOpen) (records : List Identity) (identity : Identity)
      → authenticate_reconnect create_session_auth_proof payload records ≡ ReconnectAuth.ok identity
      → (find_identity payload.phone_device_id payload.desktop_device_id records ≡ some identity)
        × (is_active identity ≡ true)
        × (secret : String) × (identity.pairing_secret ≡ some secret)
        × (secret ≢ "")
        × (payload.session_id ≢ "")
        × (create_session_auth_proof secret payload.session_id ≡ payload.auth_proof)
  unfolding authenticate_reconnect
  authenticate_ok payload records identity e =
      let found = find_identity payload.phone_device_id payload.desktop_device_id records in
      elim (Option-cases found) [
        | inl missing ↦ ground arith
        | inr (r, there) ↦
            let opened : authenticate_identity create_session_auth_proof payload r r.pairing_secret
                ≡ ReconnectAuth.ok identity =
              ground arith in
            let (equal, alive, secret, stored, proved) =
              authenticate_identity-ok payload r identity r.pairing_secret opened in
            let (some_secret, some_session, proof) =
              verify_true secret payload.session_id payload.auth_proof proved in
            (
              there ∙ ap some equal,
              subst (λ i. is_active i ≡ true) equal alive,
              secret,
              subst (λ i. i.pairing_secret ≡ some secret) equal stored,
              some_secret,
              some_session,
              proof,
            )
      ]
