-- ===== src/Messages/Outbox.antt =====
-- apps/companion/src/protocol-server/message-outbox.ts: a message of the user is queued before it is
-- sent, and stays queued. What the screen is told of a delivery is left out but for its status.
use lanxin_claw.Shared.{
  String, Bool, true, not, ◌||◌, List, [], ◌∷◌, ◌++◌, Option, none, some, if◌then◌else◌, same_text,
  truthy,
}
use lanxin_claw.Store.Types.{
  ChatMessage, ContextAttach, AuthorKind, AttachTarget, ContentKind, Body,
}
use lanxin_claw.Messages.Pending.{
  SourceKind, PendingItem, Receipt, Mailbox, EnqueueInput, Enqueued, enqueue,
}

pub record Party : Type 0 where
  pub desktop_device_id : String
  pub phone_device_id : String

pub data Outgoing : Type 0 where
  message : ChatMessage → Outgoing
  attach : ContextAttach → Outgoing

-- A message as it goes out: its address and its payload.
pub record Sent : Type 0 where
  pub desktop_device_id : String
  pub phone_device_id : String
  pub body : Body

-- `BridgeProtocolActionDispatchResult`, by its error code or the status of the delivery.
pub data Dispatched : Type 0 where
  rejected : (code : String) → Dispatched
  sent_to_phone : Dispatched
  queued_until_session : Dispatched
  thrown : Dispatched

abbrev pub outgoing_input : Party → Option String → Option String → Outgoing → EnqueueInput
outgoing_input party receipt_id job_id (Outgoing.message payload) = record {
  source_id = some payload.chat_message_id;
  source_kind = some SourceKind.message;
  phone_device_id = some party.phone_device_id;
  desktop_device_id = some party.desktop_device_id;
  text = payload.text;
  content_kind = ContentKind.note;
  target = AttachTarget.active_call;
  affair_id = payload.affair_id;
  action_receipt_id = receipt_id;
  job_id = job_id;
  enqueued_at = some payload.sent_at;
}
outgoing_input party receipt_id job_id (Outgoing.attach payload) = record {
  source_id = some payload.attach_id;
  source_kind = some SourceKind.context_attach;
  phone_device_id = some party.phone_device_id;
  desktop_device_id = some party.desktop_device_id;
  text = payload.text;
  content_kind = payload.content_kind;
  target = payload.target;
  affair_id = payload.affair_id;
  action_receipt_id = receipt_id;
  job_id = job_id;
  enqueued_at = some payload.sent_at;
}

abbrev body_of : String → PendingItem → Body
body_of source_id item = elim item.source_kind [
  | some SourceKind.message ↦ Body.chat_message (record {
    chat_message_id = source_id;
    text = item.text;
    affair_id = item.affair_id;
    author_kind = AuthorKind.user;
    sent_at = item.enqueued_at;
  })
  | _ ↦ Body.chat_context_attach (record {
    attach_id = source_id;
    text = item.text;
    target = item.target;
    affair_id = item.affair_id;
    content_kind = item.content_kind;
    sent_at = item.enqueued_at;
  })
]

-- `none` where nothing is sent.
unfoldable pub send_pending_message : PendingItem → Option Party → Bool → Option Sent
send_pending_message item none authenticated = none
send_pending_message item (some party) authenticated =
    if not authenticated
      || not (truthy item.source_id)
      || not (same_text item.phone_device_id (some party.phone_device_id))
      || not (same_text item.desktop_device_id (some party.desktop_device_id))
    then none
    else elim item.source_id [
      | none ↦ none
      | some source_id ↦ some (record {
        desktop_device_id = party.desktop_device_id;
        phone_device_id = party.phone_device_id;
        body = body_of source_id item;
      })
    ]

abbrev one : Option Sent → List Sent
one none = []
one (some sent) = sent ∷ []

unfoldable pub flush_items : List PendingItem → Option Party → Bool → List Sent
flush_items [] party authenticated = []
flush_items (item ∷ rest) party authenticated =
    one (send_pending_message item party authenticated) ++ flush_items rest party authenticated

unfoldable pub flush_pending_context : Mailbox → Option Party → Bool → List Sent
flush_pending_context m party authenticated = elim party [
  | none ↦ []
  | some p ↦ if not authenticated then [] else flush_items m.items (some p) authenticated
]

abbrev dispatch : Enqueued × Mailbox → Party → Bool → Dispatched × List Sent × Mailbox
dispatch (Enqueued.err code, m) party authenticated = (Dispatched.rejected code, [], m)
dispatch (Enqueued.thrown, m) party authenticated = (Dispatched.thrown, [], m)
dispatch (Enqueued.ok item, m) party authenticated =
    if authenticated
    then (Dispatched.sent_to_phone, one (send_pending_message item (some party) true), m)
    else (Dispatched.queued_until_session, [], m)

module _ (can_write : List PendingItem → List Receipt → Bool) where
  -- `receipt_id` and `job_id` are those of the delivery.
  unfoldable pub queue_desktop_message :
      (pending_id now : String) (receipt_id job_id : Option String)
      → Outgoing
      → Option Party
      → Bool
      → Mailbox
      → Dispatched × List Sent × Mailbox
  queue_desktop_message pending_id now receipt_id job_id payload none authenticated m =
      (Dispatched.rejected "phone_required", [], m)
  queue_desktop_message pending_id now receipt_id job_id payload (some party) authenticated m =
      dispatch (enqueue can_write pending_id now (outgoing_input party receipt_id job_id payload) m)
        party authenticated
