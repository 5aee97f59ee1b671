-- ===== src/Store/Legal.antt =====
-- Affairs before and after an affair message of apps/companion/src/state.
use lanxin_claw.Shared.{
  String, ◌≡◌, refl, inl, inr, true, List, some, arith, ◌==◌, eq_iff, lookup, insert, lookup-insert,
  Bool-cases, Option-cases, same_refl,
}
use lanxin_claw.States.Affair.{AffairStatus, can_transition_affair_status, affair_status_enum}
use lanxin_claw.Store.Types.{Affair, State}
use lanxin_claw.Store.Apply.{apply_affair, fail_with_ids}

-- Every affair stands under its own id.
abbrev pub IsKeyed : List (String × Affair) → Type 0
IsKeyed affairs =
    (id : String) (affair : Affair) → lookup id affairs ≡ some affair → affair.affair_id ≡ id

-- From one state to the next: every affair is kept, and its status makes at most one legal move.
pub record IsLegal (before after : List (String × Affair)) : Type 0 where
  pub keyed : IsKeyed after
  pub moves :
      (id : String) (affair : Affair)
      → lookup id before ≡ some affair
      → (later : Affair) × (lookup id after ≡ some later)
        × (can_transition_affair_status affair.status later.status ≡ true)

pub can_stay : (s : AffairStatus) → can_transition_affair_status s s ≡ true
unfolding can_transition_affair_status
can_stay s = rw (same_refl s) refl

pub IsLegal-refl : {affairs : List (String × Affair)} → IsKeyed affairs → IsLegal affairs affairs
IsLegal-refl k = record { keyed = k; moves = λ id affair e. (affair, e, can_stay affair.status) }

IsKeyed-insert :
    (payload : Affair) (affairs : List (String × Affair))
    → IsKeyed affairs
    → IsKeyed (insert payload.affair_id payload affairs)
IsKeyed-insert payload affairs k id affair e = ground (
  arith,
  k id affair,
  eq_iff payload.affair_id id,
  lookup-insert payload.affair_id id payload affairs,
)

-- One affair is written, by a legal move from what stood there.
pub IsLegal-insert :
    (payload : Affair) (affairs : List (String × Affair))
    → IsKeyed affairs
    → ((old : Affair)
        → lookup payload.affair_id affairs ≡ some old
        → can_transition_affair_status old.status payload.status ≡ true)
    → IsLegal affairs (insert payload.affair_id payload affairs)
IsLegal-insert payload affairs k m = record {
  keyed = IsKeyed-insert payload affairs k;
  moves = λ id affair e. elim (Bool-cases (payload.affair_id == id)) [
    | inl hit ↦
        let name : payload.affair_id ≡ id = ground (arith, eq_iff payload.affair_id id) in
        (
          payload,
          ground (arith, lookup-insert payload.affair_id id payload affairs),
          m affair (ground arith),
        )
    | inr miss ↦ (
      affair,
      ground (arith, lookup-insert payload.affair_id id payload affairs),
      can_stay affair.status,
    )
  ];
}

module _ (now : String) (state : State) (keyed : IsKeyed state.affairs) where
  pub apply_affair-IsLegal :
      (payload : Affair) → IsLegal state.affairs (apply_affair now payload state).0.affairs
  unfolding apply_affair fail_with_ids
  apply_affair-IsLegal payload = elim (Option-cases (lookup payload.affair_id state.affairs)) [
    | inl fresh ↦
        rw (fresh, apply_affair)
          (IsLegal-insert payload state.affairs keyed (λ old e. ground arith))
    | inr (existing, e) ↦
        elim (Bool-cases (can_transition_affair_status existing.status payload.status)) [
          | inr illegal ↦ rw (e, apply_affair, illegal) (IsLegal-refl keyed)
          | inl legal ↦
              rw (e, apply_affair, legal)
                (IsLegal-insert payload state.affairs keyed (λ old f. ground arith))
        ]
  ]
