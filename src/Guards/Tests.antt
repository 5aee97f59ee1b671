-- ===== src/Guards/Tests.antt =====
-- Messages at the guards, and the theorems at them.
use lanxin_claw.Shared.{◌≡◌, refl, false, not, ◌||◌, is_some, none, some}
use lanxin_claw.Store.Types.{Connection}
use text.Mathlib.Text.{starts_with}
use lanxin_claw.Guards.Inbound.{
  MessageType, Endpoint, EndpointKind, validate_inbound_auth, validate_inbound_identity,
  should_send_envelope_to_socket,
}
use lanxin_claw.Guards.Session.{should_send-validate_inbound_auth}

abbrev phone : Endpoint
phone = record { kind = EndpointKind.phone; device_id = "phone" }

abbrev desktop : Endpoint
desktop = record { kind = EndpointKind.companion; device_id = "desk" }

abbrev connection : Connection
connection = record {
  phone_device_id = some "phone";
  phone_display_name = none;
  pairing_id = none;
  session_id = none;
  last_seen_at = none;
  session_authenticated = false;
}

should_send-validate_inbound_auth_example : should_send_envelope_to_socket "job.progress" false ≡ (
    not (is_some (validate_inbound_auth "job.progress" false))
    || starts_with "job.progress" "session.")
should_send-validate_inbound_auth_example =
    should_send-validate_inbound_auth MessageType.job_progress

known : validate_inbound_identity phone desktop connection "desk" ≡ none
unfolding validate_inbound_identity
known = refl
