-- ===== src/Shared.antt =====
-- The names that the other modules share: the libraries', passed on, and those of the children.
mod Tests
mod Lists
mod Dict
mod Enums
mod Paths
mod Search
mod Entries
mod Text
pub use Tests.*
pub use Lists.*
pub use Enums.*
pub use Paths.{Reach, here, next, Reach_induction, Reach-cons}
unfoldable pub use Dict.{lookup, insert}
unfoldable pub use Text.{trim}
pub use Text.{is_blank, is_missing, join, same_text_refl}
pub use Prim.Native.String.{◌++◌ as append}
pub use Dict.{has, lookup-insert, lookup-insert_self}
pub use Search.{search_from-Reach}
pub use Entries.{put_all, from_entries, IsDistinct, from_entries-IsDistinct}
pub use Prim.Native.Nat.{ℕ, zero, suc, ◌+◌, ◌-◌, ◌*◌, ◌^◌, ◌≤◌, ◌<◌, min, max}
pub use Prim.Native.String.{String}
pub use mathlib.Core.Path.{◌≡◌, refl, sym, ap, ◌∙◌, fun_ext}
pub use mathlib.Core.Logic.{◌≢◌, ◌↔◌, ◌⊎◌, inl, inr}
pub use mathlib.Core.Bool.{Bool, true, false, not, ◌&&◌, ◌||◌}
pub use mathlib.Core.Option.{Option, none, some}
pub use mathlib.Core.List.{List, [], ◌∷◌, ◌++◌, map, Memᴰ}
pub use text.Mathlib.Text.{◌==◌}
pub use text.Mathlib.TextEquality.{eq_iff}
pub use text.Mathlib.TextPositions.{eq_refl}
pub use native.Mathlib.Omega.{arith}
