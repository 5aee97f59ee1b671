-- ===== src/Credentials/Store.antt =====
-- apps/companion/src/credentials/identity-store.ts, device-identity.ts and auth-proof.ts: the stored
-- identities and the authentication of a session. The persistence is the list of the records that
-- were saved last. `create_session_auth_proof` is the keyed hash of the session id, `secret` the
-- fresh secret that `createPairingSecret` would draw.
use lanxin_claw.Shared.{
  String, Bool, true, false, not, ◌&&◌, ◌||◌, List, [], ◌∷◌, ◌++◌, Option, none, some,
  if◌then◌else◌, ◌==◌, filter, find, truthy, or_else,
}
use lanxin_claw.Credentials.Key.{device_pair_key}

pub data Lifecycle : Type 0 where
  active revoked : Lifecycle

pub record Identity : Type 0 where
  pub pairing_id : String
  pub phone_device_id : String
  pub phone_display_name : String
  pub desktop_device_id : String
  pub desktop_display_name : String
  pub pairing_secret : Option String
  pub lifecycle : Lifecycle
  pub paired_at : String
  pub revoked_at : Option String
  pub revoke_reason : Option String

pub record SavePairedIdentityInput : Type 0 where
  pub pairing_id : String
  pub phone_device_id : String
  pub phone_display_name : String
  pub desktop_device_id : String
  pub desktop_display_name : String
  pub pairing_secret : Option String
  pub paired_at : String

pub record SessionOpen : Type 0 where
  pub session_id : String
  pub phone_device_id : String
  pub desktop_device_id : String
  pub auth_proof : String

pub data RequiredAction : Type 0 where
  reopen repair : RequiredAction

pub data ReconnectAuth : Type 0 where
  ok : Identity → ReconnectAuth
  refused : RequiredAction → ReconnectAuth

abbrev pub key_of : Identity → String
key_of r = device_pair_key r.phone_device_id r.desktop_device_id

abbrev pub identity_of : SavePairedIdentityInput → (secret : String) → Identity
identity_of input secret = record {
  pairing_id = input.pairing_id;
  phone_device_id = input.phone_device_id;
  phone_display_name = input.phone_display_name;
  desktop_device_id = input.desktop_device_id;
  desktop_display_name = input.desktop_display_name;
  pairing_secret = or_else input.pairing_secret (some secret);
  lifecycle = Lifecycle.active;
  paired_at = input.paired_at;
  revoked_at = none;
  revoke_reason = none;
}

unfoldable pub save_paired_identity :
    SavePairedIdentityInput → (secret : String) → List Identity → List Identity × Identity
save_paired_identity input secret records =
    let key = device_pair_key input.phone_device_id input.desktop_device_id in
    let next = identity_of input secret in
    (filter (λ r. not (key_of r == key)) records ++ next ∷ [], next)

unfoldable pub find_identity : String → String → List Identity → Option Identity
find_identity phone desktop records = find (λ r. key_of r == device_pair_key phone desktop) records

abbrev pub is_active : Identity → Bool
is_active r = elim r.lifecycle [ Lifecycle.active ↦ true | Lifecycle.revoked ↦ false ]

unfoldable pub list_active_identities : List Identity → List Identity
list_active_identities records = filter is_active records

-- What the loop makes of one record.
abbrev pub revoked_record : String → String → String → Identity → Identity
revoked_record key reason at r = if not (key_of r == key) then r else elim r.lifecycle [
  | Lifecycle.revoked ↦ r
  | Lifecycle.active ↦ record r {
    lifecycle = Lifecycle.revoked;
    pairing_secret = none;
    revoked_at = some at;
    revoke_reason = some reason;
  }
]

-- The loop, with the record it met last under the key.
abbrev pub revoke_loop :
    String → String → String → List Identity → Option Identity → List Identity × Option Identity
revoke_loop key reason at [] updated = ([], updated)
revoke_loop key reason at (r ∷ rest) updated =
    let r' = revoked_record key reason at r in
    let (rest', last) =
      revoke_loop key reason at rest (if key_of r == key then some r' else updated) in
    (r' ∷ rest', last)

-- Nothing is saved where no record has the key.
unfoldable pub revoke_identity :
    String → String → String → String → List Identity → List Identity × Option Identity
revoke_identity phone desktop reason at records =
    let (next, updated) = revoke_loop (device_pair_key phone desktop) reason at records none in
    (elim updated [ none ↦ records | some _ ↦ next ], updated)

-- `safeEqualHex`: the bytes are compared in constant time.
abbrev pub safe_equal_hex : String → String → Bool
safe_equal_hex expected actual = not (expected == "") && expected == actual

module _ (create_session_auth_proof : String → String → String) where
  unfoldable pub verify_session_auth_proof : String → String → String → Bool
  verify_session_auth_proof pairing_secret session_id auth_proof =
      if not (truthy (some pairing_secret))
        || not (truthy (some session_id))
        || not (truthy (some auth_proof))
      then false
      else safe_equal_hex (create_session_auth_proof pairing_secret session_id) auth_proof

  abbrev pub authenticate_identity : SessionOpen → Identity → Option String → ReconnectAuth
  authenticate_identity payload identity none = ReconnectAuth.refused RequiredAction.repair
  authenticate_identity payload identity (some secret) =
      if not (is_active identity) || not (truthy (some secret))
      then ReconnectAuth.refused RequiredAction.repair
      else if not (verify_session_auth_proof secret payload.session_id payload.auth_proof)
      then ReconnectAuth.refused RequiredAction.reopen
      else ReconnectAuth.ok identity

  unfoldable pub authenticate_reconnect : SessionOpen → List Identity → ReconnectAuth
  authenticate_reconnect payload records =
      elim (find_identity payload.phone_device_id payload.desktop_device_id records) [
        | none ↦ ReconnectAuth.refused RequiredAction.repair
        | some identity ↦ authenticate_identity payload identity identity.pairing_secret
      ]
