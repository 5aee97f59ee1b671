-- ===== src/Shared/Text.antt =====
-- What JavaScript does with blanks around a text.
use Prim.Native.Char.{code}
use Prim.Native.Nat.{ℕ}
use Prim.Native.String.{String, ◌++◌ as append}
use mathlib.Core.Bool.{Bool, true, ◌&&◌, ◌||◌}
use mathlib.Core.Option.{Option, none, some}
use mathlib.Core.List.{List, [], ◌∷◌}
use mathlib.Core.Path.{◌≡◌, refl}
use text.Mathlib.TextPositions.{eq_refl}
use lanxin_claw.Shared.Tests.{if◌then◌else◌, leb, same_text}

-- The characters that `trim` takes away.
abbrev pub is_space : ℕ → Bool
is_space c =
    (leb 9 c && leb c 13)
    || (leb c 32 && leb 32 c)
    || (leb c 160 && leb 160 c)
    || (leb c 5760 && leb 5760 c)
    || (leb 8192 c && leb c 8202)
    || (leb 8232 c && leb c 8233)
    || (leb c 8239 && leb 8239 c)
    || (leb c 8287 && leb 8287 c)
    || (leb c 12288 && leb 12288 c)
    || (leb c 65279 && leb 65279 c)

-- `!text.trim()`.
abbrev pub is_blank : String → Bool
is_blank String.[] = true
is_blank (String.◌∷◌ c rest) = is_space (code c) && is_blank rest

-- `!text?.trim()`.
abbrev pub is_missing : Option String → Bool
is_missing none = true
is_missing (some text) = is_blank text

abbrev pub trim_start : String → String
trim_start String.[] = String.[]
trim_start (String.◌∷◌ c rest) =
    let shorter = trim_start rest in if is_space (code c) then shorter else String.◌∷◌ c rest

abbrev pub trim_end : String → String
trim_end String.[] = String.[]
trim_end (String.◌∷◌ c rest) =
    let shorter = String.◌∷◌ c (trim_end rest) in
    if is_blank (String.◌∷◌ c rest) then String.[] else shorter

-- `text.trim()`.
unfoldable pub trim : String → String
trim text = trim_end (trim_start text)

-- `texts.join(separator)`.
abbrev pub join : String → List String → String
join separator [] = ""
join separator (text ∷ []) = text
join separator (text ∷ next ∷ rest) = append text (append separator (join separator (next ∷ rest)))

pub same_text_refl : (o : Option String) → same_text o o ≡ true
same_text_refl none = refl
same_text_refl (some s) = eq_refl s
