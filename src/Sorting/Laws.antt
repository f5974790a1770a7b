-- ===== src/Sorting/Laws.antt =====
-- A sorted list has the items that were sorted, in order.
use Prim.Native.Nat.{Ordering}
use mathlib.Core.List.{Perm, Pairwise, Mem, forall_mem-cons, Pairwise-singleton}
use mathlib.Core.List.Perm
use vlessvmorectl.Base.{◌≡◌, true, false, List, [], ◌∷◌, Bool-cases, inl, inr, arith}
use vlessvmorectl.Sorting.{is_gt, IsConsistent, place, sort}

module _ {ℓ} {A : Type ℓ} (cmp : A → A → Ordering) where
  -- `a` may stand before `b`.
  abbrev pub Le : A → A → Type 0
  Le a b = is_gt (cmp a b) ≡ false

  abbrev pub IsSorted : List A → Type ℓ
  IsSorted = Pairwise Le

  pub Le-prop : (a b : A) → IsProp (Le a b)
  Le-prop a b = hlevel

  place-perm : (x : A) (l : List A) → Perm (place cmp x l) (x ∷ l)
  unfolding place
  place-perm x [] = Perm.rfl
  place-perm x (y ∷ ys) = elim (Bool-cases (is_gt (cmp x y))) [
    | inl e ↦ rw e (Perm.trans (Perm.cons y (place-perm x ys)) (Perm.swap x y ys))
    | inr e ↦ rw e Perm.rfl
  ]

  pub sort-perm : (l : List A) → Perm (sort cmp l) l
  unfolding sort
  sort-perm [] = Perm.rfl
  sort-perm (x ∷ xs) = Perm.trans (place-perm x (sort cmp xs)) (Perm.cons x (sort-perm xs))

  module _ (consistent : IsConsistent cmp) where
    le_of_gt : (a b : A) → is_gt (cmp a b) ≡ true → Le b a
    le_of_gt a b h = ground (arith, consistent.flipped a b)

    all_le-cons :
        (a b : A) (l : List A)
        → Le a b
        → ((x : A) → Mem x l → Le a x)
        → (x : A) → Mem x (b ∷ l)
        → Le a x
    all_le-cons a b l p h = (forall_mem-cons (Le-prop a)).1 (p, h)

    pub all_le-head :
        (a b : A) (l : List A) → Le a b → IsSorted (b ∷ l) → (x : A) → Mem x (b ∷ l) → Le a x
    all_le-head a b l p (Pairwise.cons h s) =
        all_le-cons a b l p (λ x m. consistent.trans a b x p (h x m))

    place-IsSorted : (x : A) (l : List A) → IsSorted l → IsSorted (place cmp x l)
    unfolding place
    place-IsSorted x [] s = Pairwise-singleton _ x
    place-IsSorted x (y ∷ ys) (Pairwise.cons h s) = elim (Bool-cases (is_gt (cmp x y))) [
      | inl e ↦ rw e (
          Pairwise.cons
            (λ z m. all_le-cons y x ys (le_of_gt x y e) h z ((Perm.mem_iff (place-perm x ys)).0 m))
            (place-IsSorted x ys s))
      | inr e ↦ rw e (Pairwise.cons (all_le-head x y ys e (Pairwise.cons h s)) (Pairwise.cons h s))
    ]

    pub sort-IsSorted : (l : List A) → IsSorted (sort cmp l)
    unfolding sort
    sort-IsSorted [] = Pairwise.nil
    sort-IsSorted (x ∷ xs) = place-IsSorted x (sort cmp xs) (sort-IsSorted xs)
