-- ===== src/Sorting.antt =====
-- `Array.prototype.sort` as the screens of the web client use it: with a comparator, of which the
-- language reads the sign only. The language promises a rearrangement in order in which items that
-- compare equal keep their order, and this is the one.
pub mod Laws
pub mod Unique
pub mod Keep
pub mod Chain
use Prim.Native.Nat.{Ordering}
use vlessvmorectl.Base.{◌≡◌, Bool, true, false, List, [], ◌∷◌, if◌then◌else◌}

-- `s || t` of two numbers, by their signs
abbrev pub or_sign : Ordering → Ordering → Ordering
or_sign Ordering.lt t = Ordering.lt
or_sign Ordering.eq t = t
or_sign Ordering.gt t = Ordering.gt

abbrev pub is_gt : Ordering → Bool
is_gt Ordering.gt = true
is_gt _ = false

abbrev pub flip_sign : Ordering → Ordering
flip_sign Ordering.lt = Ordering.gt
flip_sign Ordering.eq = Ordering.eq
flip_sign Ordering.gt = Ordering.lt

-- A comparator whose signs agree with one another.
pub record IsConsistent {ℓ} {A : Type ℓ} (cmp : A → A → Ordering) : Type ℓ where
  pub flipped : (a b : A) → cmp b a ≡ flip_sign (cmp a b)
  pub trans :
      (a b c : A) → is_gt (cmp a b) ≡ false → is_gt (cmp b c) ≡ false → is_gt (cmp a c) ≡ false

-- `first(a, b) || second(a, b)`
abbrev pub chain {ℓ} : {A : Type ℓ} → (A → A → Ordering) → (A → A → Ordering) → A → A → Ordering
chain first second a b = or_sign (first a b) (second a b)

module _ {ℓ} {A : Type ℓ} (cmp : A → A → Ordering) where
  unfoldable pub place : A → List A → List A
  place x [] = x ∷ []
  place x (y ∷ ys) = let rest = y ∷ place x ys in if is_gt (cmp x y) then rest else x ∷ y ∷ ys

  unfoldable pub sort : List A → List A
  unfolding place
  sort [] = []
  sort (x ∷ xs) = place x (sort xs)
