-- ===== src/Messages/Receipts.antt =====
-- apps/companion/src/backend/chat/message-receipts.ts: the phone acknowledges a message.
-- `validate_message` is the protocol's validator, by its answer alone.
use lanxin_claw.Shared.{
  String, Bool, true, false, not, ◌&&◌, List, [], ◌∷◌, ◌++◌, Option, none, some, if◌then◌else◌,
  ◌==◌, or_else, truthy, same_text, find, any, filter, is_some,
}
use lanxin_claw.Guards.Inbound.{Endpoint, is_phone}
use lanxin_claw.Store.Types.{ApplyResult}
use lanxin_claw.Messages.Pending.{SourceKind, PendingItem, Receipt, Mailbox, persist}

-- An envelope with a `ChatReadReceiptPayload`.
pub record ReceiptEnvelope : Type 0 where
  pub message_id : String
  pub source : Endpoint
  pub target : Endpoint
  pub chat_message_id : Option String
  pub attach_id : Option String
  pub read_at : String

abbrev pub source_of : ReceiptEnvelope → Option String
source_of e = or_else e.chat_message_id e.attach_id

abbrev pub kind_of : ReceiptEnvelope → SourceKind
kind_of e = if truthy e.chat_message_id then SourceKind.message else SourceKind.context_attach

abbrev pub same_kind : Option SourceKind → SourceKind → Bool
same_kind (Option.some SourceKind.message) SourceKind.message = true
same_kind (Option.some SourceKind.context_attach) SourceKind.context_attach = true
same_kind _ _ = false

-- `sameSource`.
unfoldable pub same_source : ReceiptEnvelope → Receipt → Bool
same_source e r =
    same_text r.phone_device_id (some e.source.device_id)
    && same_text r.desktop_device_id (some e.target.device_id)
    && same_text r.chat_message_id e.chat_message_id
    && same_text r.attach_id e.attach_id

abbrev pub is_conflict : ReceiptEnvelope → Receipt → Bool
is_conflict e r = same_text r.receipt_message_id (some e.message_id) && not (same_source e r)

-- Whether the receipt is for the item.
unfoldable pub acknowledges : ReceiptEnvelope → PendingItem → Bool
acknowledges e item =
    same_text item.source_id (source_of e)
    && same_kind item.source_kind (kind_of e)
    && same_text item.phone_device_id (some e.source.device_id)
    && same_text item.desktop_device_id (some e.target.device_id)

unfoldable pub receipt_of : ReceiptEnvelope → Receipt
receipt_of e = record {
  chat_message_id = e.chat_message_id;
  attach_id = e.attach_id;
  read_at = e.read_at;
  phone_device_id = some e.source.device_id;
  desktop_device_id = some e.target.device_id;
  receipt_message_id = some e.message_id;
}

module _ (can_write : List PendingItem → List Receipt → Bool) where
  -- `commitReceipt`: both lists come back if the change cannot be saved.
  unfoldable pub commit_receipt : ReceiptEnvelope → PendingItem → Mailbox → ApplyResult × Mailbox
  commit_receipt e item m =
      let next : Mailbox = record m {
        receipts = m.receipts ++ receipt_of e ∷ [];
        items = filter (λ entry. not (entry.pending_id == item.pending_id)) m.items;
      } in
      let (m', saved) = persist can_write next in
      if saved then (ApplyResult.done false, m') else (
        ApplyResult.failed "receipt_commit_failed",
        record m' { receipts = m.receipts; items = m.items },
      )

  unfoldable pub apply_message_receipt :
      (ReceiptEnvelope → Bool) → ReceiptEnvelope → Mailbox → ApplyResult × Mailbox
  apply_message_receipt validate_message e m =
      if not (validate_message e)
      then (ApplyResult.failed "protocol_invalid", m)
      else if not (is_phone e.source.kind)
      then (ApplyResult.failed "receipt_source_invalid", m)
      else if is_some (find (is_conflict e) m.receipts)
      then (ApplyResult.failed "receipt_request_conflict", m)
      else if any (same_source e) m.receipts
      then (ApplyResult.done true, m)
      else elim (find (acknowledges e) m.items) [
        | none ↦ (ApplyResult.failed "receipt_message_unknown", m)
        | some item ↦ commit_receipt e item m
      ]
