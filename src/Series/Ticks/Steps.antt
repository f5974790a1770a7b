-- ===== src/Series/Ticks/Steps.antt =====
-- The list that ticksUpTo builds, and powers of two as byte counts.
use native.Mathlib.Nat.{pow-le-pow_right, mul-mod_left, le_trans, pow-succ', zero-mod}
use native.Mathlib.Decide.{dec_lt}
use vlessvmorectl.Base.{
  ℕ, zero, suc, ◌+◌, ◌-◌, ◌*◌, ◌%◌, ◌^◌, ◌<◌, ◌≤◌, ◌≡◌, refl, min, true, Bool-cases, inl, inr, List,
  [], ◌∷◌, length, ltb, ltb→lt, ltb→ge, arith, sym, ap, ◌∙◌,
}
use vlessvmorectl.Bytes.RoundTrip.{unit_size, one-le-pow}
use vlessvmorectl.Bytes.Exact.{parse_bytes-format_bytes-eq_iff}
use vlessvmorectl.Series.Ticks.{ticks_from, ticks_up_to, is_read_back}

-- Ticks from `v` on, `step` apart, of which the last and no other reaches `max`.
abbrev pub IsAxis : (step max : ℕ) → ℕ → List ℕ → Type 0
IsAxis step max v [] = ⊥
IsAxis step max v (x ∷ []) = (x ≡ v) × (max ≤ v)
IsAxis step max v (x ∷ y ∷ ticks) = (x ≡ v) × (v < max) × IsAxis step max (v + step) (y ∷ ticks)

IsAxis-cons :
    (step max v : ℕ) (ticks : List ℕ)
    → v < max
    → IsAxis step max (v + step) ticks
    → IsAxis step max v (v ∷ ticks)
IsAxis-cons step max v [] h a = absurd a
IsAxis-cons step max v (y ∷ ticks) h a = (refl, h, a)

module _ (step max : ℕ) (positive : 1 ≤ step) where
  ticks_from-IsAxis :
      (fuel n v : ℕ)
      → v ≡ n * step
      → 1 ≤ fuel
      → max < v + fuel
      → IsAxis step max v (ticks_from max step fuel n v)
  unfolding ticks_from
  ticks_from-IsAxis zero n v e f h = absurd (omega arith)
  ticks_from-IsAxis (suc fuel) n v e f h = elim (Bool-cases (ltb v max)) [
    | inl t ↦
        let lt = ltb→lt v max t in
        rw t (
          IsAxis-cons step max v _ lt (
            ticks_from-IsAxis fuel (n + 1) (v + step) (omega (arith, e)) (omega arith)
              (omega arith)))
    | inr t ↦ rw t (sym e, ltb→ge v max t)
  ]

  pub ticks_up_to-IsAxis : IsAxis step max 0 (ticks_up_to max step)
  unfolding ticks_up_to
  ticks_up_to-IsAxis = ticks_from-IsAxis (max + 1) 0 0 (omega arith) (omega arith) (omega arith)

-- An axis of more than two ticks has a step below the peak.
pub step-lt-max :
    (step max : ℕ) (ticks : List ℕ) → IsAxis step max 0 ticks → 2 < length ticks → step < max
step-lt-max step max [] a h = absurd a
step-lt-max step max (x ∷ []) a h = absurd (omega arith)
step-lt-max step max (x ∷ y ∷ []) a h = absurd (omega arith)
step-lt-max step max (x ∷ y ∷ z ∷ ticks) (e, p, (f, q, a)) h = omega arith

-- An axis of at most two ticks is zero and the step.
pub short-axis :
    (step max : ℕ) (ticks : List ℕ)
    → 1 ≤ max
    → IsAxis step max 0 ticks
    → length ticks ≤ 2
    → ticks ≡ 0 ∷ step ∷ []
short-axis step max [] p a h = absurd a
short-axis step max (x ∷ []) p (e, q) h = absurd (omega arith)
short-axis step max (x ∷ y ∷ []) p (e, q, (f, r)) h = ground arith
short-axis step max (x ∷ y ∷ z ∷ ticks) p a h = absurd (omega arith)

pow-suc_ten :
    (j : ℕ) → 2 ^ suc (suc (suc (suc (suc (suc (suc (suc (suc (suc j))))))))) ≡ 1024 * 2 ^ j
pow-suc_ten j = omega arith

pow-ten : (j : ℕ) → 2 ^ (j + 10) ≡ 1024 * 2 ^ j
pow-ten j = ap (λ (t : ℕ). 2 ^ t) (omega arith) ∙ pow-suc_ten j

pow-small : (j : ℕ) → j < 10 → 2 ^ j < 1024
pow-small j h = omega (arith, pow-le-pow_right {n = 2} (omega arith) {i = j} {j = 9} (omega arith))

scale : (a b c q : ℕ) → a ≡ 1024 * b → b ≡ q * c → a ≡ q * (1024 * c)
scale a b c q h k = omega (arith, ap (λ (t : ℕ). 1024 * t) k)

-- A power of 1024 that is at most a power of two divides it.
pow-multiple : (e j : ℕ) → 1024 ^ e ≤ 2 ^ j → (q : ℕ) × (2 ^ j ≡ q * 1024 ^ e)
pow-multiple zero j h = (2 ^ j, omega arith)
pow-multiple (suc e) j h = elim (dec_lt j 10) [
  | yes p ↦ absurd (omega (arith, pow-small j p, one-le-pow e))
  | no p ↦
      let w : 2 ^ j ≡ 1024 * 2 ^ (j - 10) =
        ap (λ (t : ℕ). 2 ^ t) (omega arith) ∙ pow-ten (j - 10) in
      let (q, r) = pow-multiple e (j - 10) (omega (arith, w)) in
      (
        q,
        scale (2 ^ j) (2 ^ (j - 10)) (1024 ^ e) q w r
            ∙ ap (λ (t : ℕ). q * t) (sym (pow-succ' 1024 e)),
      )
]

-- The label of a power of two reads back.
pub is_read_back-pow :
    (exponent : ℕ → ℕ) (j : ℕ)
    → 1024 ^ exponent (2 ^ j) ≤ 2 ^ j
    → is_read_back exponent (2 ^ j) ≡ true
is_read_back-pow exponent j h =
    let e = min (exponent (2 ^ j)) 5 in
    let below : 1024 ^ e ≤ 2 ^ j =
      le_trans
        (pow-le-pow_right {n = 1024} (omega arith) {i = e} {j = exponent (2 ^ j)} (ground arith))
        h in
    let (q, w) = pow-multiple e j below in
    rw
      (
        (parse_bytes-format_bytes-eq_iff exponent (2 ^ j)).1
            (ap (λ (t : ℕ). t % 1024 ^ e) w ∙ mul-mod_left q (1024 ^ e)),
        is_read_back,
      )
      (ground arith)

pub is_read_back-zero : (exponent : ℕ → ℕ) → is_read_back exponent 0 ≡ true
is_read_back-zero exponent =
    rw
      (
        (parse_bytes-format_bytes-eq_iff exponent 0).1 (zero-mod (unit_size exponent 0)),
        is_read_back,
      )
      refl
