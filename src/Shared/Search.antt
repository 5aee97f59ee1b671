-- ===== src/Shared/Search.antt =====
-- The breadth-first search is sound: what it says it met can be reached.
use Prim.Native.Nat.{ℕ, zero, suc}
use mathlib.Core.Path.{◌≡◌}
use mathlib.Core.Logic.{inl, inr}
use mathlib.Core.Bool.{Bool, true, false, ◌||◌}
use mathlib.Core.Option.{Option, none, some}
use mathlib.Core.List.{List, [], ◌∷◌, ◌++◌}
use native.Mathlib.Omega.{arith}
use lanxin_claw.Shared.Tests.{if◌then◌else◌, Bool-cases}
use lanxin_claw.Shared.Lists.{All, All-append}
use lanxin_claw.Shared.Enums.{Enum, same, eq_of_same, visit, search_from}
use lanxin_claw.Shared.Paths.{Reach, next}

module _ {A : Type 0} ⦃e : Enum A⦄ (skip : A → A → List A → Bool) (can : A → A → Bool)
    (from to : A) where
  -- What the inner loop may answer: the target is reached, or all it queues is.
  abbrev Visited : Option (List A × List A) → Type 0
  Visited none = Reach can from to
  Visited (some (queue, seen)) = All (Reach can from) queue

  visit-Visited :
      (cur : A) (values queue seen : List A)
      → Reach can from cur
      → All (Reach can from) queue
      → Visited (visit skip can to cur values queue seen)
  visit-Visited cur [] queue seen r q = q
  visit-Visited cur (v ∷ rest) queue seen r q =
      elim (Bool-cases (skip cur v seen || (if can cur v then false else true))) [
        | inl skipped ↦ rw skipped (visit-Visited cur rest queue seen r q)
        | inr taken ↦
            let legal : can cur v ≡ true = ground arith in
            let there : Reach can from v = next r legal in
            elim (Bool-cases (same v to)) [
              | inl met ↦ rw (taken, met) (rw (← eq_of_same v to met) there)
              | inr other ↦
                  rw (taken, other)
                    (visit-Visited cur rest (queue ++ v ∷ []) (v ∷ seen) r
                      (All-append (Reach can from) queue (v ∷ []) q (there, tt)))
            ]
      ]

  search_from-Visited :
      (values : List A) (fuel : ℕ) (o : Option (List A × List A))
      → ((queue seen : List A)
          → All (Reach can from) queue
          → search_from skip can to values fuel queue seen ≡ some true
          → Reach can from to)
      → Visited o
      → elim o [
        | none ↦ some true
        | some (queue', seen') ↦ search_from skip can to values fuel queue' seen'
      ]
        ≡ some true
      → Reach can from to
  search_from-Visited values fuel none go v h = v
  search_from-Visited values fuel (some (queue, seen)) go v h = go queue seen v h

  -- If the search meets the target and its queue was reached, then the target is reached.
  pub search_from-Reach :
      (values : List A) (fuel : ℕ) (queue seen : List A)
      → All (Reach can from) queue
      → search_from skip can to values fuel queue seen ≡ some true
      → Reach can from to
  search_from-Reach values fuel [] seen q h = ground arith
  search_from-Reach values zero (cur ∷ queue) seen q h = ground arith
  search_from-Reach values (suc fuel) (cur ∷ queue) seen q h =
      search_from-Visited values fuel (visit skip can to cur values queue seen)
        (search_from-Reach values fuel) (visit-Visited cur values queue seen q.0 q.1) h
