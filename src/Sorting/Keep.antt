-- ===== src/Sorting/Keep.antt =====
-- What keeping some items of a list has to do with its order.
use mathlib.Core.Bool.{Bool-discrete}
use mathlib.Core.Logic.{ite}
use mathlib.Core.List
use mathlib.Core.List.{Perm, Mem}
use mathlib.Core.List.Perm
use vlessvmorectl.Base.{◌≡◌, refl, Bool, true, false, List, [], ◌∷◌, keep, if◌then◌else◌}

if-ite {ℓ} :
    {A : Type ℓ} (b : Bool) (x y : A) → (if b then x else y) ≡ ite (Bool-discrete b true) x y
if-ite true x y = refl
if-ite false x y = refl

module _ {ℓ} {A : Type ℓ} (p : A → Bool) where
  test_true : (a : A) → Dec (p a ≡ true)
  test_true a = Bool-discrete (p a) true

  keep-filter : (l : List A) → keep p l ≡ List.filter test_true l
  unfolding test_true
  keep-filter [] = refl
  keep-filter (a ∷ l) =
      rw (keep-filter l) (if-ite (p a) (a ∷ List.filter test_true l) (List.filter test_true l))

  pub keep-perm : (l r : List A) → Perm l r → Perm (keep p l) (keep p r)
  keep-perm l r h = rw (keep-filter l, keep-filter r) (Perm.filter test_true h)

  pub mem-keep : (l : List A) (a : A) → Mem a (keep p l) → Mem a l
  mem-keep l a m = ((List.mem-filter test_true).0 (rw (keep-filter l) at m)).0
