-- ===== src/Shared.antt =====
-- The names that the other modules share: those of the libraries, passed on, and those of three
-- children (tests, lists and dictionaries).
mod Tests
mod Lists
mod Dictionary
pub use Tests.*
pub use Lists.*
unfoldable pub use Dictionary.{get, put, drop_key, every_entry}
pub use Dictionary.{
  Dict, get-put, get-drop_key, every_entry-get, distinct_keys, every_entry-map, every_entry-put-map,
  every_entry-drop_key, every_entry-and,
}
pub use Prim.Native.Nat.{ℕ, zero, suc, ◌+◌, ◌-◌, ◌*◌, ◌/◌, ◌%◌, ◌≤◌, ◌<◌}
pub use Prim.Native.String.{String}
pub use mathlib.Core.Path.{◌≡◌, refl, sym, ap, ◌∙◌, subst}
pub use mathlib.Core.Logic.{◌≢◌, ◌↔◌, ◌⊎◌, inl, inr}
pub use mathlib.Core.Bool.{Bool, true, false, not, ◌&&◌, ◌||◌}
pub use mathlib.Core.Option.{Option, none, some}
pub use mathlib.Core.List.{List, [], ◌∷◌, ◌++◌, map}
pub use native.Mathlib.Omega.{arith}
pub use text.Mathlib.TextEquality.{eq_iff}
