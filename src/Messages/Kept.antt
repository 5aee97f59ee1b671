-- ===== src/Messages/Kept.antt =====
-- What happens to a queued message over any sequence of events.
use lanxin_claw.Shared.{
  String, ◌≡◌, ◌≢◌, refl, sym, ◌⊎◌, inl, inr, Bool, true, false, not, ◌&&◌, List, [], ◌∷◌, ◌++◌,
  Option, none, some, arith, ◌==◌, eq_iff, find, filter, any, is_some, All, All-append, All-filter,
  Bool-cases, Option-cases,
}
use lanxin_claw.Guards.Inbound.{is_phone}
use lanxin_claw.Messages.Pending.{
  PendingItem, Receipt, Mailbox, EnqueueInput, pending_item, replace, enqueue,
}
use lanxin_claw.Messages.Outbox.{Party, Outgoing, outgoing_input, queue_desktop_message}
use lanxin_claw.Messages.Receipts.{
  ReceiptEnvelope, is_conflict, same_source, acknowledges, commit_receipt, apply_message_receipt,
}

pub data Event : Type 0 where
  queue :
      (pending_id now : String) (receipt_id job_id : Option String)
      → Outgoing
      → Option Party
      → (authenticated : Bool) → Event
  flush : Option Party → (authenticated : Bool) → Event
  receipt : ReceiptEnvelope → Event

abbrev has_id : String → PendingItem → Bool
has_id id item = item.pending_id == id

-- The message stands in the queue.
abbrev pub IsPending : PendingItem → List PendingItem → Type 0
IsPending x items = find (has_id x.pending_id) items ≡ some x

-- No other message has its id.
abbrev pub IsOnly : PendingItem → List PendingItem → Type 0
IsOnly x items = All (λ y. y.pending_id ≡ x.pending_id → y ≡ x) items

abbrev Holds : PendingItem → List PendingItem → Type 0
Holds x items = IsPending x items × IsOnly x items

find-append :
    (p : PendingItem → Bool) (xs ys : List PendingItem) (x : PendingItem)
    → find p xs ≡ some x
    → find p (xs ++ ys) ≡ some x
find-append p [] ys x h = ground arith
find-append p (y ∷ xs) ys x h = ground (arith, find-append p xs ys x)

Holds-append :
    (x y : PendingItem) (items : List PendingItem)
    → y.pending_id ≢ x.pending_id
    → Holds x items
    → Holds x (items ++ y ∷ [])
Holds-append x y items fresh (there, only) = (
  find-append (has_id x.pending_id) items (y ∷ []) x there,
  All-append (λ z. z.pending_id ≡ x.pending_id → z ≡ x) items (y ∷ []) only
      (λ e. absurd (fresh e), tt),
)

find-filter :
    (id other : String) (items : List PendingItem)
    → id ≢ other
    → find (has_id id) (filter (λ entry. not (entry.pending_id == other)) items)
      ≡ find (has_id id) items
find-filter id other [] differ = refl
find-filter id other (y ∷ items) differ =
    ground
      (arith, find-filter id other items differ, eq_iff y.pending_id id, eq_iff y.pending_id other)

Holds-filter :
    (x : PendingItem) (other : String) (items : List PendingItem)
    → x.pending_id ≢ other
    → Holds x items
    → Holds x (filter (λ entry. not (entry.pending_id == other)) items)
Holds-filter x other items differ (there, only) = (
  rw (find-filter x.pending_id other items differ) there,
  All-filter (λ z. z.pending_id ≡ x.pending_id → z ≡ x) (λ entry. not (entry.pending_id == other))
      items only,
)

find-All :
    (P : PendingItem → Type 0) (p : PendingItem → Bool) (items : List PendingItem)
    (item : PendingItem)
    → All P items
    → find p items ≡ some item
    → P item × (p item ≡ true)
find-All P p [] item h e = ground arith
find-All P p (y ∷ items) item h e = elim (Bool-cases (p y)) [
  | inl passes ↦ let same : y ≡ item = ground arith in (rw (← same) (h.0), rw (← same) passes)
  | inr fails ↦ find-All P p items item h.1 (rw fails at e)
]

module _ (can_write : List PendingItem → List Receipt → Bool) where
  enqueue-items :
      (pending_id now : String) (input : EnqueueInput) (m : Mailbox)
      → ((enqueue can_write pending_id now input m).1.items ≡ m.items)
        ⊎ ((enqueue can_write pending_id now input m).1.items
            ≡ m.items ++ pending_item pending_id now input ∷ [])
  unfolding enqueue replace
  enqueue-items pending_id now input m = ground arith

  queue-items :
      (pending_id now : String) (receipt_id job_id : Option String) (payload : Outgoing) (p : Party)
      (authenticated : Bool) (m : Mailbox)
      → (queue_desktop_message can_write pending_id now receipt_id job_id payload
          (some p)
          authenticated
          m).2.items
        ≡ (enqueue can_write pending_id now (outgoing_input p receipt_id job_id payload) m).1.items
  unfolding queue_desktop_message
  queue-items pending_id now receipt_id job_id payload p authenticated m = ground arith

  queue-Holds :
      (x : PendingItem) (pending_id now : String) (receipt_id job_id : Option String)
      (payload : Outgoing) (party : Option Party) (authenticated : Bool) (m : Mailbox)
      → pending_id ≢ x.pending_id
      → Holds x m.items
      → Holds x
          (queue_desktop_message can_write pending_id now receipt_id job_id payload party
            authenticated m).2.items
  unfolding queue_desktop_message
  queue-Holds x pending_id now receipt_id job_id payload none authenticated m fresh h = h
  queue-Holds x pending_id now receipt_id job_id payload (some p) authenticated m fresh h =
      let input = outgoing_input p receipt_id job_id payload in
      rw (queue-items pending_id now receipt_id job_id payload p authenticated m)
        (elim (enqueue-items pending_id now input m) [
          | inl kept ↦ rw kept h
          | inr added ↦
              rw added (Holds-append x (pending_item pending_id now input) m.items fresh h)
        ])

  commit-items :
      (e : ReceiptEnvelope) (item : PendingItem) (m : Mailbox)
      → ((commit_receipt can_write e item m).1.items ≡ m.items)
        ⊎ ((commit_receipt can_write e item m).1.items
            ≡ filter (λ entry. not (entry.pending_id == item.pending_id)) m.items)
  unfolding commit_receipt
  commit-items e item m = ground arith

  commit-Holds :
      (x item : PendingItem) (e : ReceiptEnvelope) (m : Mailbox)
      → find (acknowledges e) m.items ≡ some item
      → acknowledges e x ≡ false
      → Holds x m.items
      → Holds x (commit_receipt can_write e item m).1.items
  commit-Holds x item e m found other h =
      let (only, hit) =
        find-All (λ y. y.pending_id ≡ x.pending_id → y ≡ x) (acknowledges e) m.items item h.1
          found in
      let differ : x.pending_id ≢ item.pending_id = λ same. cc (only (sym same)) in
      elim (commit-items e item m) [
        | inl kept ↦ rw kept h
        | inr removed ↦ rw removed (Holds-filter x item.pending_id m.items differ h)
      ]

  receipt-items :
      (validate_message : ReceiptEnvelope → Bool) (e : ReceiptEnvelope) (m : Mailbox)
      → ((apply_message_receipt can_write validate_message e m).1 ≡ m)
        ⊎ ((item : PendingItem) × (find (acknowledges e) m.items ≡ some item)
            × ((apply_message_receipt can_write validate_message e m).1
                ≡ (commit_receipt can_write e item m).1))
  unfolding apply_message_receipt
  receipt-items validate_message e m = elim (Option-cases (find (acknowledges e) m.items)) [
    | inl unknown ↦ inl (ground arith)
    | inr (item, found) ↦
        elim (Bool-cases (
          validate_message e
          && is_phone e.source.kind
          && not (is_some (find (is_conflict e) m.receipts))
          && not (any (same_source e) m.receipts))) [
            | inl passes ↦ inr (item, found, ground arith)
            | inr refused ↦ inl (ground arith)
          ]
  ]

  receipt-Holds :
      (validate_message : ReceiptEnvelope → Bool) (x : PendingItem) (e : ReceiptEnvelope)
      (m : Mailbox)
      → acknowledges e x ≡ false
      → Holds x m.items
      → Holds x (apply_message_receipt can_write validate_message e m).1.items
  receipt-Holds validate_message x e m other h = elim (receipt-items validate_message e m) [
    | inl kept ↦ rw kept h
    | inr (item, found, result) ↦ rw result (commit-Holds x item e m found other h)
  ]

-- Each event comes with what can be saved at its time.
abbrev pub Write : Type 0
Write = List PendingItem → List Receipt → Bool

module _ (validate_message : ReceiptEnvelope → Bool) where
  unfoldable pub happen : Write → Event → Mailbox → Mailbox
  happen can_write (Event.queue pending_id now receipt_id job_id payload party authenticated) m =
      (queue_desktop_message can_write pending_id now receipt_id job_id payload party authenticated
        m).2
  happen can_write (Event.flush party authenticated) m = m
  happen can_write (Event.receipt e) m = (apply_message_receipt can_write validate_message e m).1

  unfoldable pub happen_all : List (Write × Event) → Mailbox → Mailbox
  happen_all [] m = m
  happen_all ((can_write, event) ∷ rest) m = happen_all rest (happen can_write event m)

  -- A new message has a new id, and a receipt is not for this message.
  abbrev pub IsElsewhere : PendingItem → Write × Event → Type 0
  IsElsewhere x (can_write, Event.queue pending_id _ _ _ _ _ _) = pending_id ≢ x.pending_id
  IsElsewhere x (can_write, Event.flush _ _) = Unit
  IsElsewhere x (can_write, Event.receipt e) = acknowledges e x ≡ false

  happen-Holds :
      (x : PendingItem) (can_write : Write) (event : Event) (m : Mailbox)
      → IsElsewhere x (can_write, event)
      → Holds x m.items
      → Holds x (happen can_write event m).items
  unfolding happen
  happen-Holds x can_write (Event.queue pending_id now receipt_id job_id payload party auth) m fresh
        h =
      queue-Holds can_write x pending_id now receipt_id job_id payload party auth m fresh h
  happen-Holds x can_write (Event.flush party auth) m elsewhere h = h
  happen-Holds x can_write (Event.receipt e) m other h =
      receipt-Holds can_write validate_message x e m other h

  happen_all-Holds :
      (x : PendingItem) (events : List (Write × Event)) (m : Mailbox)
      → All (IsElsewhere x) events
      → Holds x m.items
      → Holds x (happen_all events m).items
  unfolding happen_all
  happen_all-Holds x [] m elsewhere h = h
  happen_all-Holds x ((can_write, event) ∷ rest) m elsewhere h =
      happen_all-Holds x rest (happen can_write event m) elsewhere.1
        (happen-Holds x can_write event m elsewhere.0 h)

  -- A message that waits in the queue stays there, whatever is queued, sent, acknowledged or fails
  -- to be saved, until the phone that it is addressed to acknowledges this very message, provided
  -- the ids of queued messages are unique.
  pub pending_until_receipt :
      (x : PendingItem) (events : List (Write × Event)) (m : Mailbox)
      → IsPending x m.items
      → IsOnly x m.items
      → All (IsElsewhere x) events
      → IsPending x (happen_all events m).items
  pending_until_receipt x events m pending only elsewhere =
      (happen_all-Holds x events m elsewhere (pending, only)).0
