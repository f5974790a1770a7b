-- ===== src/Base.antt =====
-- The names and lemmas that the components share: the library's names, passed on, Boolean tests
-- on the native numbers, list operations, and the JavaScript string operations that the web
-- client uses.
mod Tests
mod Lists
mod Text
mod Dict
pub use Tests.*
pub use Lists.*
unfoldable pub use Text.{trim, trim_start, trim_end, is_space}
pub use Text.{includes, truthy, or_else}
unfoldable pub use Dict.{lookup, insert, remove}
pub use Dict.{lookup-insert, lookup-remove}
pub use Prim.Native.Nat.{ℕ, zero, suc, ◌+◌, ◌-◌, ◌*◌, ◌/◌, ◌%◌, ◌^◌, ◌≤◌, ◌<◌, min, max}
pub use Prim.Native.String.{String}
pub use mathlib.Core.Path.{◌≡◌, refl, sym, ap, ap₂, subst, ◌∙◌}
pub use mathlib.Core.Logic.{◌≢◌, ◌↔◌, ◌⊎◌, inl, inr}
pub use mathlib.Core.Bool.{Bool, true, false, not, ◌&&◌, ◌||◌}
pub use mathlib.Core.Option.{Option, none, some}
pub use mathlib.Core.List.{List, [], ◌∷◌, ◌++◌, map}
pub use native.Mathlib.Omega.{arith}
pub use text.Mathlib.Text.{◌==◌ as str_eq}
pub use text.Mathlib.TextEquality.{eq_iff}
