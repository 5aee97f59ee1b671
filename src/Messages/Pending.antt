-- ===== src/Messages/Pending.antt =====
-- apps/companion/src/chat/channel/pending-context.ts: the queue of messages that no phone has
-- acknowledged. The queue and the receipts are saved together, as the runtime's callback does;
-- `can_write` says when saving succeeds. A callback that throws is the result `thrown`. The random
-- id of a new item and the time are arguments.
use lanxin_claw.Shared.{
  String, Bool, true, false, not, ◌&&◌, List, [], ◌∷◌, ◌++◌, Option, none, some, if◌then◌else◌,
  ◌==◌, find, is_blank, truthy,
}
use lanxin_claw.Store.Types.{AttachTarget, ContentKind}

pub data SourceKind : Type 0 where
  message context_attach : SourceKind

pub record PendingItem : Type 0 where
  pub source_id : Option String
  pub source_kind : Option SourceKind
  pub phone_device_id : Option String
  pub desktop_device_id : Option String
  pub pending_id : String
  pub action_receipt_id : Option String
  pub text : String
  pub content_kind : ContentKind
  pub target : AttachTarget
  pub affair_id : Option String
  pub job_id : Option String
  pub enqueued_at : String

-- `ChatReceiptRecord`.
pub record Receipt : Type 0 where
  pub chat_message_id : Option String
  pub attach_id : Option String
  pub read_at : String
  pub phone_device_id : Option String
  pub desktop_device_id : Option String
  pub receipt_message_id : Option String

pub record Mailbox : Type 0 where
  pub items : List PendingItem
  pub receipts : List Receipt
  pub saved_items : List PendingItem
  pub saved_receipts : List Receipt

-- The argument of `enqueue`.
pub record EnqueueInput : Type 0 where
  pub source_id : Option String
  pub source_kind : Option SourceKind
  pub phone_device_id : Option String
  pub desktop_device_id : Option String
  pub text : String
  pub content_kind : ContentKind
  pub target : AttachTarget
  pub affair_id : Option String
  pub action_receipt_id : Option String
  pub job_id : Option String
  pub enqueued_at : Option String

pub data Enqueued : Type 0 where
  ok : PendingItem → Enqueued
  err : (code : String) → Enqueued
  thrown : Enqueued

abbrev is_affair : AttachTarget → Bool
is_affair AttachTarget.affair = true
is_affair AttachTarget.active_call = false

abbrev text_at : Option String → String → String
text_at none now = now
text_at (some at) now = at

abbrev pub pending_item : String → String → EnqueueInput → PendingItem
pending_item pending_id now input = record {
  source_id = input.source_id;
  source_kind = input.source_kind;
  phone_device_id = input.phone_device_id;
  desktop_device_id = input.desktop_device_id;
  pending_id = pending_id;
  action_receipt_id = input.action_receipt_id;
  text = input.text;
  content_kind = input.content_kind;
  target = input.target;
  affair_id = input.affair_id;
  job_id = input.job_id;
  enqueued_at = text_at input.enqueued_at now;
}

-- `take` removes the item at the index that it found: the first one with the id.
abbrev pub remove_first : String → List PendingItem → List PendingItem
remove_first id [] = []
remove_first id (item ∷ rest) =
    let others = item ∷ remove_first id rest in if item.pending_id == id then rest else others

module _ (can_write : List PendingItem → List Receipt → Bool) where
  -- The mailbox after the attempt to save it, and whether it succeeded.
  abbrev pub persist : Mailbox → Mailbox × Bool
  persist m =
      if can_write m.items m.receipts
      then (record m { saved_items = m.items; saved_receipts = m.receipts }, true)
      else (m, false)

  -- `#replace`: the old items come back if the change cannot be saved.
  unfoldable pub replace : List PendingItem → Mailbox → Mailbox × Bool
  replace next m =
      let (m', saved) = persist (record m { items = next }) in
      if saved then (m', true) else (record m' { items = m.items }, false)

  unfoldable pub enqueue : String → String → EnqueueInput → Mailbox → Enqueued × Mailbox
  enqueue pending_id now input m =
      if is_blank input.text
      then (Enqueued.err "pending_empty", m)
      else if is_affair input.target && not (truthy input.affair_id)
      then (Enqueued.err "pending_affair_required", m)
      else let item = pending_item pending_id now input in
        let (m', saved) = replace (m.items ++ item ∷ []) m in
        (if saved then Enqueued.ok item else Enqueued.thrown, m')

  -- The item, if any, and whether saving failed.
  unfoldable pub take : String → Mailbox → Option PendingItem × Bool × Mailbox
  take pending_id m = elim (find (λ item. item.pending_id == pending_id) m.items) [
    | none ↦ (none, false, m)
    | some item ↦
        let (m', saved) = replace (remove_first pending_id m.items) m in
        (if saved then some item else none, not saved, m')
  ]

  unfoldable pub drain : Mailbox → List PendingItem × Bool × Mailbox
  drain m = let (m', saved) = replace [] m in (if saved then m.items else [], not saved, m')

abbrev pub restore : List PendingItem → Mailbox → Mailbox
restore items m = record m { items = items }
