-- ===== src/Base/Dict.antt =====
-- A JavaScript `Map` with text keys, as an association list; `insert` is `set`, `remove` is `delete`.
use Prim.Native.String.{String}
use mathlib.Core.Path.{◌≡◌}
use mathlib.Core.Option.{Option, none, some}
use mathlib.Core.List.{List, [], ◌∷◌}
use native.Mathlib.Omega.{arith}
use text.Mathlib.Text.{◌==◌ as str_eq}
use text.Mathlib.TextEquality.{eq_iff}
use vlessvmorectl.Base.Tests.{if◌then◌else◌}

module _ {ℓ} {V : Type ℓ} where
  unfoldable pub lookup : String → List (String × V) → Option V
  lookup key [] = none
  lookup key ((name, v) ∷ rest) = if str_eq name key then some v else lookup key rest

  unfoldable pub remove : String → List (String × V) → List (String × V)
  remove key [] = []
  remove key ((name, v) ∷ rest) =
      let others = remove key rest in if str_eq name key then others else (name, v) ∷ others

  unfoldable pub insert : String → V → List (String × V) → List (String × V)
  insert key new [] = (key, new) ∷ []
  insert key new ((name, old) ∷ rest) =
      let later = (name, old) ∷ insert key new rest in
      if str_eq name key then (key, new) ∷ rest else later

  pub lookup-insert :
      (key other : String) (new : V) (entries : List (String × V))
      → lookup other (insert key new entries)
        ≡ (if str_eq key other then some new else lookup other entries)
  unfolding insert lookup
  lookup-insert key other new [] = ground arith
  lookup-insert key other new ((name, old) ∷ rest) =
      let ih = lookup-insert key other new rest in
      ground (arith, eq_iff name other, eq_iff name key, eq_iff key other)

  pub lookup-remove :
      (k j : String) (m : List (String × V))
      → lookup j (remove k m) ≡ (if str_eq k j then none else lookup j m)
  unfolding lookup remove
  lookup-remove k j [] = ground arith
  lookup-remove k j ((i, w) ∷ m) =
      ground (arith, eq_iff k j, eq_iff i k, eq_iff i j, lookup-remove k j m)
