-- ===== src/Bytes/Digits.antt =====
-- Decimal numbers of web/src/lib/format.ts: a printed number is made of digits and reads back.
use vlessvmorectl.Base.{
  ℕ, zero, suc, ◌+◌, ◌-◌, ◌*◌, ◌/◌, ◌%◌, ◌<◌, ◌≤◌, ◌≡◌, refl, true, [], ◌∷◌, ◌++◌, length,
  length-append, ltb, ltb→ge, Bool-cases, inl, inr, arith,
}
use vlessvmorectl.Bytes.{Codes, is_digit, print_from, read_digits, skip_number}
use mathlib.Core.List.{append_assoc}

abbrev pub AllDigits : Codes → Type 0
AllDigits [] = Unit
AllDigits (c ∷ s) = (is_digit c ≡ true) × AllDigits s

AllDigits-append : (s t : Codes) → AllDigits s → AllDigits t → AllDigits (s ++ t)
AllDigits-append [] t h k = k
AllDigits-append (c ∷ s) t (d, h) k = (d, AllDigits-append s t h k)

pub print_from-AllDigits : (fuel n : ℕ) → AllDigits (print_from fuel n)
unfolding print_from
print_from-AllDigits zero n = tt
print_from-AllDigits (suc fuel) n = elim (Bool-cases (ltb n 10)) [
  | inl e ↦ rw e (ground arith, tt)
  | inr e ↦ rw e (
      AllDigits-append (print_from fuel (n / 10)) _ (print_from-AllDigits fuel (n / 10))
        (ground arith, tt))
]

pub length-print_from : (fuel n : ℕ) → n < fuel → 1 ≤ length (print_from fuel n)
unfolding print_from
length-print_from zero n h = absurd (omega arith)
length-print_from (suc fuel) n h = elim (Bool-cases (ltb n 10)) [
  | inl e ↦ rw e (omega arith)
  | inr e ↦ rw e (omega (arith, length-append (print_from fuel (n / 10)) ((b'0' + n % 10) ∷ [])))
]

digit-of-mod : (n : ℕ) → is_digit (b'0' + n % 10) ≡ true
digit-of-mod n = ground arith

value-of-last : (n : ℕ) → 10 * (n / 10) + (b'0' + n % 10 - b'0') ≡ n
value-of-last n = omega arith

-- Reading over a printed number is reading on from it.
pub read_digits-print_from :
    (fuel n : ℕ) (rest : Codes)
    → n < fuel
    → read_digits 0 0 (print_from fuel n ++ rest) ≡ read_digits n (length (print_from fuel n)) rest
unfolding print_from read_digits
read_digits-print_from zero n rest h = absurd (omega arith)
read_digits-print_from (suc fuel) n rest h = elim (Bool-cases (ltb n 10)) [
  | inl e ↦ rw e (ground arith)
  | inr e ↦
      let d : ℕ = b'0' + n % 10 in
      rw
        (
          e,
          append_assoc (print_from fuel (n / 10)) (d ∷ []) rest,
          read_digits-print_from fuel (n / 10) (d ∷ rest) (omega (arith, ltb→ge n 10 e)),
          length-append (print_from fuel (n / 10)) (d ∷ []),
        )
        (rw (digit-of-mod n, value-of-last n))
]

pub skip_number-digits :
    (s : Codes) (rest : Codes) → AllDigits s → skip_number (s ++ rest) ≡ skip_number rest
unfolding skip_number
skip_number-digits [] rest h = refl
skip_number-digits (c ∷ s) rest (d, h) = ground (arith, skip_number-digits s rest h)
