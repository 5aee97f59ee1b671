-- ===== src/Shared/Enums.antt =====
-- Literal unions: `===` on them, `includes`, and the breadth-first search that two parts of the
-- program run over such a union's values.
use Prim.Native.Nat.{ℕ, zero, suc, compare, Ordering}
use mathlib.Core.Path.{◌≡◌}
use mathlib.Core.Bool.{Bool, true, false, ◌||◌}
use mathlib.Core.Option.{Option, none, some}
use mathlib.Core.List.{List, [], ◌∷◌, ◌++◌}
use native.Mathlib.Omega.{arith}
use lanxin_claw.Shared.Tests.{if◌then◌else◌}

-- The values of a union are told apart by a number.
pub record Enum (A : Type 0) : Type 0 where
  pub code : A → ℕ
  pub code_injective : (a b : A) → code a ≡ code b → a ≡ b

module _ {A : Type 0} ⦃e : Enum A⦄ where
  -- `a === b`.
  abbrev pub same : A → A → Bool
  same a b = elim (compare (e.code a) (e.code b)) [ Ordering.eq ↦ true | _ ↦ false ]

  pub same_refl : (a : A) → same a a ≡ true
  same_refl a = ground arith

  pub eq_of_same : (a b : A) → same a b ≡ true → a ≡ b
  eq_of_same a b h = e.code_injective a b (ground arith)

  -- `xs.includes(a)`.
  abbrev pub includes : A → List A → Bool
  includes a [] = false
  includes a (x ∷ xs) = same a x || includes a xs

module _ {A : Type 0} ⦃e : Enum A⦄ (skip : A → A → List A → Bool) (can : A → A → Bool)
    (to : A) where
  -- The inner loop over the values that are left: `none` when it meets the target.
  abbrev pub visit : A → List A → List A → List A → Option (List A × List A)
  visit cur [] queue seen = some (queue, seen)
  visit cur (next ∷ rest) queue seen =
      let skipped = visit cur rest queue seen in
      let visited = visit cur rest (queue ++ next ∷ []) (next ∷ seen) in
      if skip cur next seen || (if can cur next then false else true)
      then skipped
      else if same next to
      then none
      else visited

  -- The outer loop on fuel. The result is whether the target was met; `none` is out of fuel.
  abbrev pub search_from : List A → ℕ → List A → List A → Option Bool
  search_from values fuel [] seen = some false
  search_from values zero (cur ∷ queue) seen = none
  search_from values (suc fuel) (cur ∷ queue) seen = elim (visit cur values queue seen) [
    | none ↦ some true
    | some (queue', seen') ↦ search_from values fuel queue' seen'
  ]
