-- ===== src/Guards/Session.antt =====
-- What passes the guards of a socket that has no session.
use lanxin_claw.Shared.{
  String, ◌≡◌, ◌≢◌, refl, ◌⊎◌, inl, inr, false, not, none, some, arith, eq_iff, Option-cases, ◌||◌,
  is_some,
}
use lanxin_claw.Store.Types.{Connection}
use text.Mathlib.Text.{starts_with}
use lanxin_claw.Guards.Inbound.{
  MessageType, type_text, Endpoint, validate_inbound_auth, is_requires_session_type,
  validate_inbound_identity, should_send_envelope_to_socket,
}

-- The messages that open a pairing or a session.
abbrev pub IsOpening : MessageType → Type 0
IsOpening type =
    (type ≡ MessageType.pairing_request)
    ⊎ (type ≡ MessageType.pairing_confirmed)
    ⊎ (type ≡ MessageType.session_open)

-- Without a session a socket is sent just the types of message that the inbound guard lets in
-- without one, and all the messages about a session, those that begin with `session.`.
pub should_send-validate_inbound_auth :
    (type : MessageType)
    → should_send_envelope_to_socket (type_text type) false ≡ (
        not (is_some (validate_inbound_auth (type_text type) false))
        || starts_with (type_text type) "session.")
unfolding should_send_envelope_to_socket validate_inbound_auth is_requires_session_type
should_send-validate_inbound_auth MessageType.pairing_request = refl
should_send-validate_inbound_auth MessageType.pairing_challenge = refl
should_send-validate_inbound_auth MessageType.pairing_confirmed = refl
should_send-validate_inbound_auth MessageType.pairing_desktop_approved = refl
should_send-validate_inbound_auth MessageType.pairing_completed = refl
should_send-validate_inbound_auth MessageType.pairing_revoked = refl
should_send-validate_inbound_auth MessageType.session_open = refl
should_send-validate_inbound_auth MessageType.session_accepted = refl
should_send-validate_inbound_auth MessageType.session_heartbeat = refl
should_send-validate_inbound_auth MessageType.session_closed = refl
should_send-validate_inbound_auth MessageType.session_reauth_required = refl
should_send-validate_inbound_auth MessageType.affair_create = refl
should_send-validate_inbound_auth MessageType.affair_update = refl
should_send-validate_inbound_auth MessageType.affair_resume = refl
should_send-validate_inbound_auth MessageType.affair_close = refl
should_send-validate_inbound_auth MessageType.job_create = refl
should_send-validate_inbound_auth MessageType.job_accepted = refl
should_send-validate_inbound_auth MessageType.job_progress = refl
should_send-validate_inbound_auth MessageType.job_needs_permission = refl
should_send-validate_inbound_auth MessageType.job_blocked = refl
should_send-validate_inbound_auth MessageType.job_completed = refl
should_send-validate_inbound_auth MessageType.job_failed = refl
should_send-validate_inbound_auth MessageType.job_cancel = refl
should_send-validate_inbound_auth MessageType.job_canceled = refl
should_send-validate_inbound_auth MessageType.chat_message = refl
should_send-validate_inbound_auth MessageType.chat_context_attach = refl
should_send-validate_inbound_auth MessageType.chat_read_receipt = refl
should_send-validate_inbound_auth MessageType.permission_request = refl
should_send-validate_inbound_auth MessageType.permission_decision = refl

-- A message that passes the guard of identities comes from the phone of the connection, which is
-- there and has a name, and goes to this desktop.
pub validate_inbound_identity-none :
    (source target : Endpoint) (connection : Connection) (desktop_device_id : String)
    → validate_inbound_identity source target connection desktop_device_id ≡ none
    → (connection.phone_device_id ≡ some source.device_id)
      × (source.device_id ≢ "")
      × (target.device_id ≡ desktop_device_id)
unfolding validate_inbound_identity
validate_inbound_identity-none source target connection desktop_device_id h =
    elim (Option-cases connection.phone_device_id) [
      | inl missing ↦ ground arith
      | inr (paired, e) ↦
          let same_phone : source.device_id ≡ paired =
            ground (arith, eq_iff source.device_id paired) in
          (
            ground arith,
            (λ empty. ground (arith, eq_iff paired "")),
            ground (arith, eq_iff target.device_id desktop_device_id),
          )
    ]
