-- ===== src/Sorting/Unique.antt =====
-- A sorted list forgets the order that it was sorted from, where no two items compare equal.
use Prim.Native.Nat.{Ordering}
use mathlib.Core.List.{Perm, Mem, mem-cons_self, mem-cons_of_mem}
use mathlib.Core.List.Pairwise
use mathlib.Core.List.Perm
use vlessvmorectl.Base.{◌≡◌, ap₂, List, [], ◌∷◌, arith}
use vlessvmorectl.Sorting.{IsConsistent, sort}
use vlessvmorectl.Sorting.Laws.{Le, IsSorted, all_le-head, sort-perm, sort-IsSorted}

-- Items of the list that compare equal are the same.
abbrev pub Distinguishes {ℓ} : {A : Type ℓ} → (A → A → Ordering) → List A → Type ℓ
Distinguishes {A} cmp l = (a b : A) → Mem a l → Mem b l → cmp a b ≡ Ordering.eq → a ≡ b

module _ {ℓ} {A : Type ℓ} (cmp : A → A → Ordering) (consistent : IsConsistent cmp) where
  both_le : (a b : A) → Le cmp a b → Le cmp b a → cmp a b ≡ Ordering.eq
  both_le a b p q = ground (arith, consistent.flipped a b)

  le_refl : (a : A) → Le cmp a a
  le_refl a = ground (arith, consistent.flipped a a)

  heads_le : (a b : A) (l r : List A) → IsSorted cmp (a ∷ l) → Perm (b ∷ r) (a ∷ l) → Le cmp a b
  heads_le a b l r s p =
      all_le-head cmp consistent a a l (le_refl a) s b ((Perm.mem_iff p).0 mem-cons_self)

  sorted_unique :
      (l r : List A) → IsSorted cmp l → IsSorted cmp r → Perm l r → Distinguishes cmp l → l ≡ r
  sorted_unique [] r sl sr p d = Perm.nil-eq p
  sorted_unique (a ∷ l) [] sl sr p d = Perm.eq-nil p
  sorted_unique (a ∷ l) (b ∷ r) sl sr p d =
      let le = heads_le a b l r sl (Perm.symm p) in
      let ge = heads_le b a r l sr p in
      let heads = d a b mem-cons_self ((Perm.mem_iff p).1 mem-cons_self) (both_le a b le ge) in
      let tails = Perm.cons_inv (Perm.trans p (Perm.symm (Perm.cons' heads Perm.rfl))) in
      ap₂ ◌∷◌ heads (
        sorted_unique l r (Pairwise.of_cons sl) (Pairwise.of_cons sr) tails
          (λ x y m n e. d x y (mem-cons_of_mem a m) (mem-cons_of_mem a n) e))

  pub sort-eq_of_perm : (l r : List A) → Perm l r → Distinguishes cmp l → sort cmp l ≡ sort cmp r
  sort-eq_of_perm l r p d =
      sorted_unique (sort cmp l) (sort cmp r) (sort-IsSorted cmp consistent l)
        (sort-IsSorted cmp consistent r)
        (Perm.trans (sort-perm cmp l) (Perm.trans p (Perm.symm (sort-perm cmp r))))
        (λ a b m n e.
          d a b ((Perm.mem_iff (sort-perm cmp l)).0 m) ((Perm.mem_iff (sort-perm cmp l)).0 n) e)
