-- ===== src/Shared/Paths.antt =====
-- Paths along a table of transitions.
use mathlib.Core.Path.{◌≡◌}
use mathlib.Core.Bool.{Bool, true}

pub data Reach {A : Type 0} (can : A → A → Bool) (from : A) : A → Type 0 where
  here : Reach can from from
  next : {b c : A} → Reach can from b → can b c ≡ true → Reach can from c

module _ {A : Type 0} {can : A → A → Bool} where
  -- What the first value has and every transition keeps, the last value has.
  pub Reach_induction :
      (P : A → Type 0)
      → ((b c : A) → P b → can b c ≡ true → P c)
      → {a d : A} → Reach can a d
      → P a
      → P d
  Reach_induction P keep here h = h
  Reach_induction P keep (next {b} {c} r s) h = keep b c (Reach_induction P keep r h) s

  pub Reach-cons : {a b c : A} → can a b ≡ true → Reach can b c → Reach can a c
  Reach-cons s here = next here s
  Reach-cons s (next r t) = next (Reach-cons s r) t
