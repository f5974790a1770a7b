-- ===== src/Bytes/Exact.antt =====
-- When the size formatBytes prints with no decimals is the size it was given, and how far off it is
-- otherwise.
use native.Mathlib.Nat.{
  div-mul-le_self, lt-div-mul-add, div-eq_of_lt-le, mod-eq-sub-div-mul, mul-mod_left,
}
use mathlib.Core.Option.{some-injective}
use native.Mathlib.Decide.{ℕ_discrete}
use vlessvmorectl.Base.{◌==◌, ℕ, ◌+◌, ◌*◌, ◌/◌, ◌%◌, ◌≤◌, ◌≡◌, ◌↔◌, some, arith, sym, ap, ◌∙◌, min}
use vlessvmorectl.Bytes.{round_div, format_bytes, parse_bytes}
use vlessvmorectl.Bytes.RoundTrip.{unit_size, one-le-pow, shown_size, parse_bytes-format_bytes}

module _ (n m : ℕ) (h : 1 ≤ m) where
  round_div_near : (2 * n ≤ 2 * (round_div n m * m) + m) × (2 * (round_div n m * m) ≤ 2 * n + m)
  round_div_near =
      let a = div-mul-le_self (2 * n + m) (2 * m) in
      let b = lt-div-mul-add {a = 2 * n + m} {b = 2 * m} (omega arith) in omega (arith, a, b)

  round_div-exact : n % m ≡ 0 → round_div n m * m ≡ n
  round_div-exact e =
      let q : ℕ = n / m in
      let w : n ≡ q * m = omega (arith, e, mod-eq-sub-div-mul n m, div-mul-le_self n m) in
      let r : round_div n m ≡ q =
        div-eq_of_lt-le {k = q} (2 * m) {m = 2 * n + m} (omega (arith, w)) (omega (arith, w)) in
      ap (λ (t : ℕ). t * m) r ∙ sym w

  exact-round_div : round_div n m * m ≡ n → n % m ≡ 0
  exact-round_div e = ap (λ (t : ℕ). t % m) (sym e) ∙ mul-mod_left (round_div n m) m

unit_size-positive : (exponent : ℕ → ℕ) (n : ℕ) → 1 ≤ unit_size exponent n
unit_size-positive exponent n = one-le-pow (min (exponent n) 5)

-- The test of a form or an axis on what it read back
pub shown_size-test :
    (exponent : ℕ → ℕ) (n : ℕ) → (shown_size exponent n == n) ≡ (n % unit_size exponent n == 0)
shown_size-test exponent n =
    let u = unit_size exponent n in
    let one = unit_size-positive exponent n in
    elim (ℕ_discrete (n % u) 0) [
      | yes e ↦ rw (e, round_div-exact n u one e) (ground arith)
      | no e ↦ ground (arith, e, λ (h : round_div n u * u ≡ n). e (exact-round_div n u one h))
    ]

-- What formatBytes prints with no decimals reads back as the number exactly when the number is a
-- whole multiple of the unit it prints in.
pub parse_bytes-format_bytes-eq_iff :
    (exponent : ℕ → ℕ) (n : ℕ)
    → (parse_bytes (format_bytes exponent n 0) ≡ some n) ↔ (n % unit_size exponent n ≡ 0)
parse_bytes-format_bytes-eq_iff exponent n =
    let u = unit_size exponent n in
    let one = unit_size-positive exponent n in
    let shown = parse_bytes-format_bytes exponent n in
    (
      λ h. exact-round_div n u one (some-injective _ _ (sym shown ∙ h)),
      λ h. shown ∙ ap some (round_div-exact n u one h),
    )

-- What formatBytes prints with no decimals always reads back as a size, and that is off by at most
-- half of the unit.
pub parse_bytes-format_bytes_near :
    (exponent : ℕ → ℕ) (n : ℕ)
    → (m : ℕ) × (parse_bytes (format_bytes exponent n 0) ≡ some m)
      × (2 * n ≤ 2 * m + unit_size exponent n)
      × (2 * m ≤ 2 * n + unit_size exponent n)
parse_bytes-format_bytes_near exponent n =
    let u = unit_size exponent n in
    let near = round_div_near n u (unit_size-positive exponent n) in
    (round_div n u * u, parse_bytes-format_bytes exponent n, near.0, near.1)
