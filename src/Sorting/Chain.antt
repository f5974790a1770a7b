-- ===== src/Sorting/Chain.antt =====
-- Comparators that look at one thing first and at another where that is equal.
use Prim.Native.Nat.{Ordering, compare}
use vlessvmorectl.Base.{
  ℕ, ◌≡◌, refl, Bool, true, false, not, List, [], ◌∷◌, ◌++◌, keep, All, if◌then◌else◌, Bool-cases,
  inl, inr, arith,
}
use vlessvmorectl.Sorting.{IsConsistent, is_gt, chain, place, sort}

module _ {ℓ} {A : Type ℓ} (key : A → ℕ) where
  pub ascending-IsConsistent : IsConsistent (λ (a b : A). compare (key a) (key b))
  ascending-IsConsistent = record {
    flipped = λ a b. ground arith;
    trans = λ a b c p q. ground arith;
  }

  pub descending-IsConsistent : IsConsistent (λ (a b : A). compare (key b) (key a))
  descending-IsConsistent = record {
    flipped = λ a b. ground arith;
    trans = λ a b c p q. ground arith;
  }

module _ {ℓ} {A : Type ℓ} (first second : A → A → Ordering) where
  pub chain-IsConsistent :
      IsConsistent first → IsConsistent second → IsConsistent (chain first second)
  chain-IsConsistent f s = record {
    flipped = λ a b. ground (arith, f.flipped a b, s.flipped a b);
    trans = λ a b c p q. ground (
      arith,
      f.flipped a b,
      f.flipped b c,
      f.flipped a c,
      f.trans a b c,
      f.trans c a b,
      f.trans b c a,
      s.trans a b c,
    );
  }

  -- Where the whole compares equal, so does each part.
  pub chain-eq : (a b : A) → chain first second a b ≡ Ordering.eq → second a b ≡ Ordering.eq
  chain-eq a b h = ground (arith, h)

-- Two groups, of which one goes first.
module _ {ℓ} {A : Type ℓ} (late : A → Bool) (cmp : A → A → Ordering) where
  abbrev pub grouped : A → A → Ordering
  grouped = chain (λ a b. compare (if late a then 1 else 0) (if late b then 1 else 0)) cmp

  abbrev Early : List A → Type 0
  Early = All (λ a. late a ≡ false)

  abbrev Late : List A → Type 0
  Late = All (λ a. late a ≡ true)

  place_ahead : (x : A) (r : List A) → late x ≡ false → Late r → place grouped x r ≡ x ∷ r
  unfolding place
  place_ahead x [] h k = refl
  place_ahead x (y ∷ r) h (p, k) = ground (arith, h, p)

  place_front :
      (x : A) (l r : List A)
      → late x ≡ false
      → Early l
      → Late r
      → place grouped x (l ++ r) ≡ place cmp x l ++ r
  unfolding place
  place_front x [] r h e k = place_ahead x r h k
  place_front x (y ∷ l) r h (p, e) k = ground (arith, h, p, place_front x l r h e k)

  place_among : (x : A) (r : List A) → late x ≡ true → Late r → place grouped x r ≡ place cmp x r
  unfolding place
  place_among x [] h k = refl
  place_among x (y ∷ r) h (p, k) = ground (arith, h, p, place_among x r h k)

  place_last :
      (x : A) (l r : List A)
      → late x ≡ true
      → Early l
      → Late r
      → place grouped x (l ++ r) ≡ l ++ place cmp x r
  unfolding place
  place_last x [] r h e k = place_among x r h k
  place_last x (y ∷ l) r h (p, e) k = ground (arith, h, p, place_last x l r h e k)

module _ {ℓ} {A : Type ℓ} (P : A → Type 0) (cmp : A → A → Ordering) where
  All-place : (x : A) (l : List A) → P x → All P l → All P (place cmp x l)
  unfolding place
  All-place x [] h k = (h, tt)
  All-place x (y ∷ l) h (p, k) = elim (Bool-cases (is_gt (cmp x y))) [
    | inl e ↦ rw e (p, All-place x l h k)
    | inr e ↦ rw e (h, (p, k))
  ]

  All-sort : (l : List A) → All P l → All P (sort cmp l)
  unfolding sort
  All-sort [] h = tt
  All-sort (x ∷ l) (p, h) = All-place x (sort cmp l) p (All-sort l h)

module _ {ℓ} {A : Type ℓ} (late : A → Bool) (cmp : A → A → Ordering) where
  keep-Late : (l : List A) → All (λ a. late a ≡ true) (keep late l)
  keep-Late [] = tt
  keep-Late (x ∷ l) = elim (Bool-cases (late x)) [
    | inl e ↦ rw e (e, keep-Late l)
    | inr e ↦ rw e (keep-Late l)
  ]

  keep-Early : (l : List A) → All (λ a. late a ≡ false) (keep (λ a. not (late a)) l)
  keep-Early [] = tt
  keep-Early (x ∷ l) = elim (Bool-cases (late x)) [
    | inl e ↦ rw e (keep-Early l)
    | inr e ↦ rw e (e, keep-Early l)
  ]

  -- Sorting by the group first is sorting each group.
  pub sort-grouped :
      (l : List A)
      → sort (grouped late cmp) l ≡ sort cmp (keep (λ a. not (late a)) l) ++ sort cmp (keep late l)
  unfolding sort
  sort-grouped [] = refl
  sort-grouped (x ∷ l) =
      let early = All-sort (λ a. late a ≡ false) cmp (keep (λ a. not (late a)) l) (keep-Early l) in
      let later = All-sort (λ a. late a ≡ true) cmp (keep late l) (keep-Late l) in
      elim (Bool-cases (late x)) [
        | inl e ↦ rw (sort-grouped l, e) (place_last late cmp x _ _ e early later)
        | inr e ↦ rw (sort-grouped l, e) (place_front late cmp x _ _ e early later)
      ]
