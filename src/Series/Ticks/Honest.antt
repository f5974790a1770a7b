-- ===== src/Series/Ticks/Honest.antt =====
-- byteTicks ends, and the axis it returns says the truth.
use native.Mathlib.Nat.{pow-suc}
use vlessvmorectl.Base.{
  ℕ, zero, suc, ◌+◌, ◌^◌, ◌<◌, ◌≤◌, ◌≡◌, refl, Bool, true, false, ◌&&◌, not, Bool-cases, ◌⊎◌, inl,
  inr, some, List, [], ◌∷◌, length, ltb, ltb→lt, ltb→ge, ◌==◌, arith,
}
use vlessvmorectl.Series.Ticks.{ticks_up_to, labels_exact, honest_ticks, byte_ticks}
use vlessvmorectl.Series.Ticks.Steps.{
  IsAxis, ticks_up_to-IsAxis, step-lt-max, short-axis, is_read_back-pow, is_read_back-zero,
}

&&-eq-true : (a b : Bool) → (a && b) ≡ true → (a ≡ true) × (b ≡ true)
&&-eq-true true b h = (refl, h)
&&-eq-true false b h = cc

-- The loop goes on only over more than two ticks with a wrong label.
goes_on : (b c : Bool) → (b && not c) ≡ false → (b ≡ false) ⊎ (c ≡ true)
goes_on true true h = inr refl
goes_on true false h = cc
goes_on false c h = inl refl

-- What byteTicks answers: an even axis, the step a power of two, every label of which reads back.
abbrev pub IsHonest : (exponent : ℕ → ℕ) → ℕ → List ℕ → Type 0
IsHonest exponent max ticks =
    (j : ℕ) × IsAxis (2 ^ j) max 0 ticks × (labels_exact exponent ticks ≡ true)

pub pow-positive : (j : ℕ) → 1 ≤ 2 ^ j
pow-positive zero = omega arith
pow-positive (suc j) = omega (arith, pow-positive j)

module _ (exponent : ℕ → ℕ) (max : ℕ) (at_least_one : 1 ≤ max)
    (below : (j : ℕ) → 1024 ^ exponent (2 ^ j) ≤ 2 ^ j) where
  not_zero : max == 0 ≡ false
  not_zero = ground arith

  two_exact : (j : ℕ) → labels_exact exponent (0 ∷ 2 ^ j ∷ []) ≡ true
  unfolding labels_exact
  two_exact j = rw (is_read_back-zero exponent, is_read_back-pow exponent j (below j)) refl

  stopped :
      (j : ℕ)
      → (ltb 2 (length (ticks_up_to max (2 ^ j)))
          && not (labels_exact exponent (ticks_up_to max (2 ^ j))))
        ≡ false
      → labels_exact exponent (ticks_up_to max (2 ^ j)) ≡ true
  stopped j h =
      let ticks = ticks_up_to max (2 ^ j) in
      elim (goes_on _ (labels_exact exponent ticks) h) [
        | inl short ↦
            rw
              (short-axis (2 ^ j) max ticks at_least_one
                (ticks_up_to-IsAxis (2 ^ j) max (pow-positive j)) (ltb→ge 2 (length ticks) short))
              (two_exact j)
        | inr exact ↦ exact
      ]

  honest_ticks_lem :
      (fuel j : ℕ)
      → 1 ≤ fuel
      → max < fuel + 2 ^ j
      → (ticks : List ℕ) × (honest_ticks exponent max fuel (2 ^ j) ≡ some ticks)
        × IsHonest exponent max ticks
  unfolding honest_ticks
  honest_ticks_lem zero j f h = absurd (omega arith)
  honest_ticks_lem (suc fuel) j f h =
      let ticks = ticks_up_to max (2 ^ j) in
      let axis = ticks_up_to-IsAxis (2 ^ j) max (pow-positive j) in
      elim (Bool-cases (ltb 2 (length ticks) && not (labels_exact exponent ticks))) [
        | inl e ↦
            let lt =
              step-lt-max (2 ^ j) max ticks axis (ltb→lt 2 (length ticks) (&&-eq-true _ _ e).0) in
            rw (e, ← pow-suc 2 j)
              (honest_ticks_lem fuel (suc j) (omega arith)
                (omega (arith, pow-suc 2 j, pow-positive j)))
        | inr e ↦ rw e (ticks, refl, (j, axis, stopped j e))
      ]

  -- For a peak of at least one byte, byteTicks ends and returns ticks that start at zero, stand a power
  -- of two apart, of which the last and no other reaches the peak, and the label of every one of which
  -- parses back to the tick. The condition is that the exponent of a power of two is not too large.
  pub byte_ticks-IsHonest :
      (k : ℕ)
      → (ticks : List ℕ) × (byte_ticks exponent k max ≡ some ticks) × IsHonest exponent max ticks
  unfolding byte_ticks
  byte_ticks-IsHonest k =
      rw (not_zero) (honest_ticks_lem (max + 1) k (omega arith) (omega (arith, pow-positive k)))
