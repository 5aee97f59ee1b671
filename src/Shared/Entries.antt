-- ===== src/Shared/Entries.antt =====
-- `new Map(entries)`: the entries are put in one after the other.
use Prim.Native.String.{String}
use mathlib.Core.Path.{◌≡◌, refl, sym, ap, ◌∙◌}
use mathlib.Core.Bool.{false}
use mathlib.Core.Option.{none}
use mathlib.Core.List.{List, [], ◌∷◌, ◌++◌}
use text.Mathlib.Text.{◌==◌}
use text.Mathlib.TextEquality.{eq_iff}
use native.Mathlib.Omega.{arith}
use lanxin_claw.Shared.Dict.{lookup, insert}

module _ {ℓ} {V : Type ℓ} where
  abbrev pub put_all : List (String × V) → List (String × V) → List (String × V)
  put_all entries [] = entries
  put_all entries ((key, value) ∷ rest) = put_all (insert key value entries) rest

  abbrev pub from_entries : List (String × V) → List (String × V)
  from_entries entries = put_all [] entries

  -- No key stands twice.
  abbrev pub IsDistinct : List (String × V) → Type ℓ
  IsDistinct [] = Unit
  IsDistinct ((key, value) ∷ rest) = (lookup key rest ≡ none) × IsDistinct rest

  -- None of the entries is in the map.
  abbrev IsApart : List (String × V) → List (String × V) → Type ℓ
  IsApart entries [] = Unit
  IsApart entries ((key, value) ∷ rest) = (lookup key entries ≡ none) × IsApart entries rest

  insert_new :
      (key : String) (value : V) (entries : List (String × V))
      → lookup key entries ≡ none
      → insert key value entries ≡ entries ++ (key, value) ∷ []
  unfolding insert lookup
  insert_new key value [] h = refl
  insert_new key value ((name, old) ∷ rest) h = ground (arith, insert_new key value rest)

  lookup-append :
      (key other : String) (value : V) (entries : List (String × V))
      → lookup other entries ≡ none
      → (key == other) ≡ false
      → lookup other (entries ++ (key, value) ∷ []) ≡ none
  unfolding lookup
  lookup-append key other value [] h differs = ground arith
  lookup-append key other value ((name, old) ∷ rest) h differs =
      ground (arith, lookup-append key other value rest)

  IsApart-append :
      (key : String) (value : V) (entries rest : List (String × V))
      → lookup key rest ≡ none
      → IsApart entries rest
      → IsApart (entries ++ (key, value) ∷ []) rest
  unfolding lookup
  IsApart-append key value entries [] fresh a = tt
  IsApart-append key value entries ((name, other) ∷ rest) fresh a = (
    lookup-append key name value entries a.0 (ground (arith, eq_iff key name, eq_iff name key)),
    IsApart-append key value entries rest (ground arith) a.1,
  )

  append_assoc :
      (key : String) (value : V) (entries rest : List (String × V))
      → (entries ++ (key, value) ∷ []) ++ rest ≡ entries ++ (key, value) ∷ rest
  append_assoc key value [] rest = refl
  append_assoc key value (entry ∷ entries) rest =
      ap (λ xs. entry ∷ xs) (append_assoc key value entries rest)

  append-nil : (entries : List (String × V)) → entries ++ [] ≡ entries
  append-nil [] = refl
  append-nil (entry ∷ entries) = ap (λ xs. entry ∷ xs) (append-nil entries)

  put_all-append :
      (entries rest : List (String × V))
      → IsDistinct rest
      → IsApart entries rest
      → put_all entries rest ≡ entries ++ rest
  put_all-append entries [] d a = sym (append-nil entries)
  put_all-append entries ((key, value) ∷ rest) d a =
      ap (λ m. put_all m rest) (insert_new key value entries a.0)
      ∙ put_all-append (entries ++ (key, value) ∷ []) rest d.1
          (IsApart-append key value entries rest d.0 a.1)
      ∙ append_assoc key value entries rest

  IsApart-nil : (rest : List (String × V)) → IsApart [] rest
  unfolding lookup
  IsApart-nil [] = tt
  IsApart-nil (entry ∷ rest) = (refl, IsApart-nil rest)

  -- A map with distinct keys is put together again from its entries.
  pub from_entries-IsDistinct :
      (entries : List (String × V)) → IsDistinct entries → from_entries entries ≡ entries
  from_entries-IsDistinct entries d = put_all-append [] entries d (IsApart-nil entries)
