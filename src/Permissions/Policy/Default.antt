-- ===== src/Permissions/Policy/Default.antt =====
-- What may run without a question.
use lanxin_claw.Shared.{
  String, ◌≡◌, ◌⊎◌, ◌↔◌, inl, inr, true, false, arith, eq_iff, refl, Bool-cases,
}
use lanxin_claw.Permissions.Policy.{
  classify_permission_policy, is_allowed_by_default, is_known_permission_id, PolicyBucket,
}

-- The two labels of the companion itself.
abbrev pub IsMeta : String → Type 0
IsMeta id = (id ≡ "connection.status") ⊎ (id ≡ "companion.capability_summary")

allowed-IsMeta : (id : String) → is_allowed_by_default id ≡ true → IsMeta id
unfolding is_allowed_by_default
allowed-IsMeta id h =
    ground (arith, eq_iff "connection.status" id, eq_iff "companion.capability_summary" id)

meta_allowed : (id : String) → IsMeta id → is_allowed_by_default id ≡ true
unfolding is_allowed_by_default
meta_allowed id (inl status) = rw status refl
meta_allowed id (inr summary) = rw summary refl

meta_unknown : (id : String) → IsMeta id → is_known_permission_id id ≡ false
meta_unknown id (inl status) = rw status refl
meta_unknown id (inr summary) = rw summary refl

-- Just the two labels of the companion itself are allowed without a question, and no permission of
-- the protocol is.
pub allowed_by_default-IsMeta :
    (id : String)
    → ((is_allowed_by_default id ≡ true) ↔ IsMeta id)
      × ((is_known_permission_id id ≡ false) ⊎ (is_allowed_by_default id ≡ false))
allowed_by_default-IsMeta id = (
  (allowed-IsMeta id, meta_allowed id),
  elim (Bool-cases (is_allowed_by_default id)) [
    | inl allowed ↦ inl (meta_unknown id (allowed-IsMeta id allowed))
    | inr asked ↦ inr asked
  ],
)

-- What the protocol does not know is denied, unless it is one of the two labels.
pub unknown-default_deny :
    (id : String)
    → is_known_permission_id id ≡ false
    → IsMeta id ⊎ (classify_permission_policy id ≡ PolicyBucket.default_deny)
unfolding classify_permission_policy
unknown-default_deny id h =
    ground (arith, eq_iff "connection.status" id, eq_iff "companion.capability_summary" id)
