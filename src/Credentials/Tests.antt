-- ===== src/Credentials/Tests.antt =====
-- One paired phone, and the theorems at its sessions.
use lanxin_claw.Shared.{String, ◌≡◌, ◌≢◌, refl, true, [], ◌∷◌, none, some, eq_iff, arith}
use lanxin_claw.Credentials.Key.{device_pair_key}
use lanxin_claw.Credentials.Store.{
  Lifecycle, Identity, SavePairedIdentityInput, SessionOpen, RequiredAction, ReconnectAuth,
  is_active, revoke_identity, find_identity, verify_session_auth_proof, authenticate_reconnect,
}
use lanxin_claw.Credentials.Safety.{IdentityCall, perform_all, revoked-refused, authenticate_ok}

-- A toy hash: the secret.
abbrev hash : String → String → String
hash secret session_id = secret

abbrev phone : Identity
phone = record {
  pairing_id = "pair1";
  phone_device_id = "phone";
  phone_display_name = "Phone";
  desktop_device_id = "desk";
  desktop_display_name = "Desk";
  pairing_secret = some "secret";
  lifecycle = Lifecycle.active;
  paired_at = "t0";
  revoked_at = none;
  revoke_reason = none;
}

abbrev open_session : SessionOpen
open_session = record {
  session_id = "s1";
  phone_device_id = "phone";
  desktop_device_id = "desk";
  auth_proof = "secret";
}

abbrev other_phone : SavePairedIdentityInput
other_phone = record {
  pairing_id = "pair2";
  phone_device_id = "phone2";
  phone_display_name = "Phone 2";
  desktop_device_id = "desk";
  desktop_display_name = "Desk";
  pairing_secret = none;
  paired_at = "t3";
}

let_in : authenticate_reconnect hash open_session (phone ∷ []) ≡ ReconnectAuth.ok phone
unfolding authenticate_reconnect find_identity device_pair_key verify_session_auth_proof
let_in = refl

other_key : device_pair_key "phone2" "desk" ≢ device_pair_key "phone" "desk"
unfolding device_pair_key
other_key e = ground (arith, (eq_iff "phone2\0desk" "phone\0desk").1 e)

revoked-refused_example :
    authenticate_reconnect hash open_session (
      perform_all
        (IdentityCall.save other_phone "fresh" ∷ [])
        (revoke_identity "phone" "desk" "lost" "t2" (phone ∷ [])).0)
    ≡ ReconnectAuth.refused RequiredAction.repair
revoked-refused_example =
    revoked-refused hash "phone" "desk" "lost" "t2" (phone ∷ [])
      (IdentityCall.save other_phone "fresh" ∷ []) open_session refl refl (other_key, tt)

authenticate_ok_example :
    (find_identity "phone" "desk" (phone ∷ []) ≡ some phone)
    × (is_active phone ≡ true)
    × (secret : String) × (phone.pairing_secret ≡ some secret)
    × (secret ≢ "")
    × (open_session.session_id ≢ "")
    × (hash secret open_session.session_id ≡ open_session.auth_proof)
authenticate_ok_example = authenticate_ok hash open_session (phone ∷ []) phone let_in
