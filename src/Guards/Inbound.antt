-- ===== src/Guards/Inbound.antt =====
-- apps/companion/src/protocol-server/guards/: inbound/message-direction.ts, inbound/inbound-auth.ts
-- and ws/ws-audience.ts. A message that reaches these guards has passed `validateMessage`, so its
-- type is one of the protocol's. A refusal is kept by its code.
use lanxin_claw.Shared.{
  String, Bool, true, false, not, ◌&&◌, ◌||◌, List, [], ◌∷◌, Option, none, some, if◌then◌else◌,
  ◌==◌, any, truthy,
}
use text.Mathlib.Text.{starts_with}
use lanxin_claw.Store.Types.{Connection}

-- `MESSAGE_TYPES` of packages/protocol/src/messages/message-type.ts.
pub data MessageType : Type 0 where
  pairing_request : MessageType
  pairing_challenge : MessageType
  pairing_confirmed : MessageType
  pairing_desktop_approved : MessageType
  pairing_completed : MessageType
  pairing_revoked : MessageType
  session_open : MessageType
  session_accepted : MessageType
  session_heartbeat : MessageType
  session_closed : MessageType
  session_reauth_required : MessageType
  affair_create : MessageType
  affair_update : MessageType
  affair_resume : MessageType
  affair_close : MessageType
  job_create : MessageType
  job_accepted : MessageType
  job_progress : MessageType
  job_needs_permission : MessageType
  job_blocked : MessageType
  job_completed : MessageType
  job_failed : MessageType
  job_cancel : MessageType
  job_canceled : MessageType
  chat_message : MessageType
  chat_context_attach : MessageType
  chat_read_receipt : MessageType
  permission_request : MessageType
  permission_decision : MessageType

abbrev pub type_text : MessageType → String
type_text MessageType.pairing_request = "pairing.request"
type_text MessageType.pairing_challenge = "pairing.challenge"
type_text MessageType.pairing_confirmed = "pairing.confirmed"
type_text MessageType.pairing_desktop_approved = "pairing.desktop_approved"
type_text MessageType.pairing_completed = "pairing.completed"
type_text MessageType.pairing_revoked = "pairing.revoked"
type_text MessageType.session_open = "session.open"
type_text MessageType.session_accepted = "session.accepted"
type_text MessageType.session_heartbeat = "session.heartbeat"
type_text MessageType.session_closed = "session.closed"
type_text MessageType.session_reauth_required = "session.reauth_required"
type_text MessageType.affair_create = "affair.create"
type_text MessageType.affair_update = "affair.update"
type_text MessageType.affair_resume = "affair.resume"
type_text MessageType.affair_close = "affair.close"
type_text MessageType.job_create = "job.create"
type_text MessageType.job_accepted = "job.accepted"
type_text MessageType.job_progress = "job.progress"
type_text MessageType.job_needs_permission = "job.needs_permission"
type_text MessageType.job_blocked = "job.blocked"
type_text MessageType.job_completed = "job.completed"
type_text MessageType.job_failed = "job.failed"
type_text MessageType.job_cancel = "job.cancel"
type_text MessageType.job_canceled = "job.canceled"
type_text MessageType.chat_message = "chat.message"
type_text MessageType.chat_context_attach = "chat.context_attach"
type_text MessageType.chat_read_receipt = "chat.read_receipt"
type_text MessageType.permission_request = "permission.request"
type_text MessageType.permission_decision = "permission.decision"

pub data DirectionRule : Type 0 where
  phone_to_companion companion_to_phone either : DirectionRule

-- `DIRECTION_RULES`.
unfoldable pub direction_rule : MessageType → DirectionRule
direction_rule MessageType.pairing_request = DirectionRule.phone_to_companion
direction_rule MessageType.pairing_challenge = DirectionRule.companion_to_phone
direction_rule MessageType.pairing_confirmed = DirectionRule.phone_to_companion
direction_rule MessageType.pairing_desktop_approved = DirectionRule.companion_to_phone
direction_rule MessageType.pairing_completed = DirectionRule.companion_to_phone
direction_rule MessageType.pairing_revoked = DirectionRule.companion_to_phone
direction_rule MessageType.session_open = DirectionRule.phone_to_companion
direction_rule MessageType.session_accepted = DirectionRule.companion_to_phone
direction_rule MessageType.session_heartbeat = DirectionRule.either
direction_rule MessageType.session_closed = DirectionRule.either
direction_rule MessageType.session_reauth_required = DirectionRule.companion_to_phone
direction_rule MessageType.affair_create = DirectionRule.phone_to_companion
direction_rule MessageType.affair_update = DirectionRule.either
direction_rule MessageType.affair_resume = DirectionRule.phone_to_companion
direction_rule MessageType.affair_close = DirectionRule.phone_to_companion
direction_rule MessageType.job_create = DirectionRule.phone_to_companion
direction_rule MessageType.job_accepted = DirectionRule.companion_to_phone
direction_rule MessageType.job_progress = DirectionRule.companion_to_phone
direction_rule MessageType.job_needs_permission = DirectionRule.companion_to_phone
direction_rule MessageType.job_blocked = DirectionRule.companion_to_phone
direction_rule MessageType.job_completed = DirectionRule.companion_to_phone
direction_rule MessageType.job_failed = DirectionRule.companion_to_phone
direction_rule MessageType.job_cancel = DirectionRule.phone_to_companion
direction_rule MessageType.job_canceled = DirectionRule.companion_to_phone
direction_rule MessageType.chat_message = DirectionRule.either
direction_rule MessageType.chat_context_attach = DirectionRule.companion_to_phone
direction_rule MessageType.chat_read_receipt = DirectionRule.phone_to_companion
direction_rule MessageType.permission_request = DirectionRule.companion_to_phone
direction_rule MessageType.permission_decision = DirectionRule.companion_to_phone

pub data EndpointKind : Type 0 where
  phone companion adapter : EndpointKind

pub record Endpoint : Type 0 where
  pub kind : EndpointKind
  pub device_id : String

abbrev pub is_phone : EndpointKind → Bool
is_phone EndpointKind.phone = true
is_phone _ = false

abbrev pub is_companion : EndpointKind → Bool
is_companion EndpointKind.companion = true
is_companion _ = false

abbrev pub is_to_phone : DirectionRule → Bool
is_to_phone DirectionRule.companion_to_phone = true
is_to_phone _ = false

-- The result of a guard: `none` lets the message pass, `some` is the code of the refusal.
unfoldable pub validate_inbound_from_phone :
    MessageType → (source target : Endpoint) → Option String
validate_inbound_from_phone type source target =
    if is_to_phone (direction_rule type)
    then some "inbound_direction_rejected"
    else if not (is_phone source.kind) || not (is_companion target.kind)
    then some "inbound_direction_invalid"
    else none

abbrev pub requires_session_prefixes : List String
requires_session_prefixes = "affair." ∷ "job." ∷ "chat." ∷ "permission." ∷ []

unfoldable pub is_requires_session_type : String → Bool
is_requires_session_type type = any (λ prefix. starts_with type prefix) requires_session_prefixes

unfoldable pub validate_inbound_auth : String → Bool → Option String
validate_inbound_auth type socket_authenticated =
    if type == "session.open"
    then none
    else if starts_with type "pairing."
    then none
    else if starts_with type "session."
    then if not socket_authenticated then some "session_required" else none
    else if is_requires_session_type type && not socket_authenticated
    then some "session_required"
    else none

unfoldable pub validate_inbound_identity :
    (source target : Endpoint) → Connection → (desktop_device_id : String) → Option String
validate_inbound_identity source target connection desktop_device_id =
    elim connection.phone_device_id [
      | none ↦ some "inbound_identity_mismatch"
      | some paired ↦
          if not (truthy (some paired))
          then some "inbound_identity_mismatch"
          else if not (source.device_id == paired)
          then some "inbound_identity_mismatch"
          else if not (target.device_id == desktop_device_id)
          then some "inbound_identity_mismatch"
          else none
    ]

abbrev pub is_pre_session_protocol_type : String → Bool
is_pre_session_protocol_type type = starts_with type "pairing." || starts_with type "session."

unfoldable pub should_send_envelope_to_socket : String → Bool → Bool
should_send_envelope_to_socket type socket_authenticated =
    if is_pre_session_protocol_type type then true else socket_authenticated
