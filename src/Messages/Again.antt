-- ===== src/Messages/Again.antt =====
-- A receipt that the phone sends again.
use lanxin_claw.Shared.{
  String, ◌≡◌, refl, inl, inr, Bool, true, false, List, [], ◌∷◌, ◌++◌, none, arith, eq_refl, find,
  any, filter, not, ◌==◌, same_text_refl, Option-cases,
}
use lanxin_claw.Guards.Inbound.{is_phone}
use lanxin_claw.Store.Types.{ApplyResult}
use lanxin_claw.Messages.Pending.{PendingItem, Receipt, Mailbox}
use lanxin_claw.Messages.Receipts.{
  ReceiptEnvelope, same_source, is_conflict, acknowledges, receipt_of, commit_receipt,
  apply_message_receipt,
}

own_source : (e : ReceiptEnvelope) → same_source e (receipt_of e) ≡ true
unfolding same_source receipt_of
own_source e = ground (
  arith,
  eq_refl e.source.device_id,
  eq_refl e.target.device_id,
  same_text_refl e.chat_message_id,
  same_text_refl e.attach_id,
)

any-last :
    (p : Receipt → Bool) (rs : List Receipt) (r : Receipt)
    → p r ≡ true
    → any p (rs ++ r ∷ []) ≡ true
any-last p [] r h = ground arith
any-last p (s ∷ rs) r h = ground (arith, any-last p rs r h)

find-last :
    (p : Receipt → Bool) (rs : List Receipt) (r : Receipt)
    → find p rs ≡ none
    → p r ≡ false
    → find p (rs ++ r ∷ []) ≡ none
find-last p [] r h f = ground arith
find-last p (s ∷ rs) r h f = ground (arith, find-last p rs r)

module _ (can_write : List PendingItem → List Receipt → Bool)
    (validate_message : ReceiptEnvelope → Bool) where
  commit-receipts :
      (e : ReceiptEnvelope) (item : PendingItem) (m m' : Mailbox)
      → commit_receipt can_write e item m ≡ (ApplyResult.done false, m')
      → m'.receipts ≡ m.receipts ++ receipt_of e ∷ []
  unfolding commit_receipt
  commit-receipts e item m m' h = ground arith

  committed_once :
      (e : ReceiptEnvelope) (m m' : Mailbox)
      → apply_message_receipt can_write validate_message e m ≡ (ApplyResult.done false, m')
      → (validate_message e ≡ true)
        × (is_phone e.source.kind ≡ true)
        × (find (is_conflict e) m.receipts ≡ none)
        × (m'.receipts ≡ m.receipts ++ receipt_of e ∷ [])
  unfolding apply_message_receipt
  committed_once e m m' h = elim (Option-cases (find (acknowledges e) m.items)) [
    | inl unknown ↦ ground arith
    | inr (item, found) ↦ elim (Option-cases (find (is_conflict e) m.receipts)) [
      | inl free ↦
          let valid : validate_message e ≡ true = ground arith in
          let phone : is_phone e.source.kind ≡ true = ground arith in
          let fresh : any (same_source e) m.receipts ≡ false = ground arith in
          let done : commit_receipt can_write e item m ≡ (ApplyResult.done false, m') =
            rw (apply_message_receipt, valid, phone, free, fresh, found) at h in
          (valid, phone, free, commit-receipts e item m m' done)
      | inr (r, conflict) ↦ ground arith
    ]
  ]

  -- A receipt that was applied is answered as a duplicate when it comes again, whatever can be
  -- saved then, and changes nothing.
  pub receipt_again :
      (can_write_later : List PendingItem → List Receipt → Bool) (e : ReceiptEnvelope)
      (m m' : Mailbox)
      → apply_message_receipt can_write validate_message e m ≡ (ApplyResult.done false, m')
      → apply_message_receipt can_write_later validate_message e m' ≡ (ApplyResult.done true, m')
  unfolding apply_message_receipt
  receipt_again can_write_later e m m' h =
      let (valid, phone, free, stored) = committed_once e m m' h in
      let own = own_source e in
      let known = any-last (same_source e) m.receipts (receipt_of e) own in
      let clash : is_conflict e (receipt_of e) ≡ false = ground arith in
      let clear = find-last (is_conflict e) m.receipts (receipt_of e) free clash in
      let known' : any (same_source e) m'.receipts ≡ true = rw stored known in
      let clear' : find (is_conflict e) m'.receipts ≡ none = rw stored clear in
      rw (valid, phone, clear', known') refl

  -- A receipt that is refused, for whatever reason, leaves the queue and the receipts as they were.
  pub receipt_refused :
      (e : ReceiptEnvelope) (m m' : Mailbox) (code : String)
      → apply_message_receipt can_write validate_message e m ≡ (ApplyResult.failed code, m')
      → m' ≡ m
  unfolding apply_message_receipt commit_receipt
  receipt_refused e m m' code h = ground arith

  commit-unsaved :
      (broken : List PendingItem → List Receipt → Bool) (e : ReceiptEnvelope) (item : PendingItem)
      (m : Mailbox)
      → ((items : List PendingItem) (receipts : List Receipt) → broken items receipts ≡ false)
      → commit_receipt broken e item m ≡ (ApplyResult.failed "receipt_commit_failed", m)
  unfolding commit_receipt
  commit-unsaved broken e item m fails =
      let next = m.receipts ++ receipt_of e ∷ [] in
      let items = filter (λ entry. not (entry.pending_id == item.pending_id)) m.items in
      rw (fails items next) refl

  -- A receipt that would be applied is refused with `receipt_commit_failed` when nothing can be
  -- saved, and nothing of it stays: the queue and the receipts are the old ones, in memory and on
  -- the disk.
  pub receipt_unsaved :
      (broken : List PendingItem → List Receipt → Bool) (e : ReceiptEnvelope) (m m' : Mailbox)
      → ((items : List PendingItem) (receipts : List Receipt) → broken items receipts ≡ false)
      → apply_message_receipt can_write validate_message e m ≡ (ApplyResult.done false, m')
      → apply_message_receipt broken validate_message e m
        ≡ (ApplyResult.failed "receipt_commit_failed", m)
  unfolding apply_message_receipt
  receipt_unsaved broken e m m' fails h = elim (Option-cases (find (acknowledges e) m.items)) [
    | inl unknown ↦ ground arith
    | inr (item, found) ↦
        let (valid, phone, free, stored) = committed_once e m m' h in
        let fresh : any (same_source e) m.receipts ≡ false = ground arith in
        rw (valid, phone, free, fresh, found) (commit-unsaved broken e item m fails)
  ]
