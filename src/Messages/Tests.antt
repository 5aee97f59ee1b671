-- ===== src/Messages/Tests.antt =====
-- A message on its way to the phone, and the theorems at it.
use lanxin_claw.Shared.{
  String, ◌≡◌, ◌≢◌, refl, Bool, true, false, List, [], ◌∷◌, none, some, arith, eq_iff,
}
use lanxin_claw.Guards.Inbound.{EndpointKind}
use lanxin_claw.Store.Types.{ChatMessage, AuthorKind, ApplyResult}
use lanxin_claw.Messages.Pending.{PendingItem, Mailbox, pending_item}
use lanxin_claw.Messages.Outbox.{
  Party, Outgoing, outgoing_input, send_pending_message, flush_items, flush_pending_context,
}
use lanxin_claw.Messages.Receipts.{
  ReceiptEnvelope, same_source, acknowledges, receipt_of, commit_receipt, apply_message_receipt,
}
use lanxin_claw.Messages.Kept.{Event, IsPending, Write, happen_all, pending_until_receipt}
use lanxin_claw.Messages.Again.{receipt_again, receipt_unsaved}

abbrev party : Party
party = record { desktop_device_id = "d1"; phone_device_id = "p1" }

abbrev hello : ChatMessage
hello = record {
  chat_message_id = "c1";
  text = "hello";
  affair_id = none;
  author_kind = AuthorKind.user;
  sent_at = "t1";
}

abbrev item : PendingItem
item = pending_item "x1" "t1" (outgoing_input party (some "b1") none (Outgoing.message hello))

abbrev mailbox : Mailbox
mailbox = record { items = item ∷ []; receipts = []; saved_items = item ∷ []; saved_receipts = [] }

abbrev writes : Bool → Write
writes can items receipts = can

abbrev receipt_from : String → ReceiptEnvelope
receipt_from phone = record {
  message_id = "m9";
  source = record { kind = EndpointKind.phone; device_id = phone };
  target = record { kind = EndpointKind.companion; device_id = "d1" };
  chat_message_id = some "c1";
  attach_id = none;
  read_at = "t9";
}

abbrev valid : ReceiptEnvelope → Bool
valid e = true

-- Another phone's receipt, a second message that cannot be saved, and a flush.
abbrev events : List (Write × Event)
events =
    (writes true, Event.receipt (receipt_from "p2"))
    ∷ (writes false, Event.queue "x2" "t2" none none (Outgoing.message hello) (some party) true)
    ∷ (writes true, Event.flush (some party) true)
    ∷ []

abbrev pending_now : IsPending item mailbox.items
pending_now = refl

other_phone : acknowledges (receipt_from "p2") item ≡ false
unfolding acknowledges
other_phone = refl

new_id : ◌≢◌ {A = String} "x2" "x1"
new_id e = ground (arith, eq_iff "x2" "x1")

pending_until_receipt_example : IsPending item (happen_all valid events mailbox).items
pending_until_receipt_example =
    pending_until_receipt valid item events mailbox pending_now ((λ e. refl), tt)
      (other_phone, (new_id, (tt, tt)))

abbrev acknowledged : ApplyResult × Mailbox
acknowledged = apply_message_receipt (writes true) valid (receipt_from "p1") mailbox

acknowledged_done : acknowledged ≡ (ApplyResult.done false, acknowledged.1)
unfolding apply_message_receipt commit_receipt acknowledges same_source receipt_of
acknowledged_done = refl

acknowledged_empty : (acknowledged.1).items ≡ []
unfolding apply_message_receipt commit_receipt acknowledges same_source receipt_of
acknowledged_empty = refl

receipt_again_example :
    apply_message_receipt (writes false) valid (receipt_from "p1") acknowledged.1
    ≡ (ApplyResult.done true, acknowledged.1)
receipt_again_example =
    receipt_again (writes true) valid (writes false) (receipt_from "p1") mailbox acknowledged.1
      acknowledged_done

receipt_unsaved_example :
    apply_message_receipt (writes false) valid (receipt_from "p1") mailbox
    ≡ (ApplyResult.failed "receipt_commit_failed", mailbox)
receipt_unsaved_example =
    receipt_unsaved (writes true) valid (writes false) (receipt_from "p1") mailbox acknowledged.1
      (λ items receipts. refl) acknowledged_done

abbrev other_party : Party
other_party = record { desktop_device_id = "d1"; phone_device_id = "p2" }

-- Only the phone that the message is addressed to is sent it.
not_to_others : flush_pending_context mailbox (some other_party) true ≡ []
unfolding flush_pending_context flush_items send_pending_message
not_to_others = refl
