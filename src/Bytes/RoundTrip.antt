-- ===== src/Bytes/RoundTrip.antt =====
-- parseBytes on what formatBytes prints.
use vlessvmorectl.Base.{
  ℕ, zero, suc, ◌+◌, ◌*◌, ◌^◌, ◌≤◌, min, ◌≡◌, refl, true, false, some, [], ◌∷◌, ◌++◌, map, length,
  ◌==◌, Bool-cases, inl, inr, arith, ◌∙◌, ap,
}
use vlessvmorectl.Bytes.{
  Codes, codes, print, round_div, unit_name, fraction_digits, format_bytes, drop_spaces_end, lower,
  clean, is_zero_text, read_digits, skip_number, read_suffix, after_whole, parse_float, size_of,
  parse_clean, parse_bytes,
}
use native.Mathlib.Nat.{div-eq_of_lt}
use vlessvmorectl.Bytes.Digits.{
  AllDigits, print_from-AllDigits, length-print_from, read_digits-print_from, skip_number-digits,
}
use vlessvmorectl.Bytes.Clean.{clean-digits}

abbrev tail : ℕ → Codes
tail i = b' ' ∷ unit_name i

drop_spaces_end-tail : (i : ℕ) → drop_spaces_end (tail i) ≡ tail i
unfolding drop_spaces_end
drop_spaces_end-tail zero = refl
drop_spaces_end-tail (suc zero) = refl
drop_spaces_end-tail (suc (suc zero)) = refl
drop_spaces_end-tail (suc (suc (suc zero))) = refl
drop_spaces_end-tail (suc (suc (suc (suc zero)))) = refl
drop_spaces_end-tail (suc (suc (suc (suc (suc n))))) = refl

read_suffix-tail : (i : ℕ) → read_suffix (map lower (tail i)) ≡ some (min i 5)
unfolding read_suffix lower
read_suffix-tail zero = refl
read_suffix-tail (suc zero) = refl
read_suffix-tail (suc (suc zero)) = refl
read_suffix-tail (suc (suc (suc zero))) = refl
read_suffix-tail (suc (suc (suc (suc zero)))) = refl
read_suffix-tail (suc (suc (suc (suc (suc n))))) = ground arith

clean-print :
    (s : Codes) (i : ℕ) → AllDigits s → 1 ≤ length s → clean (s ++ tail i) ≡ s ++ map lower (tail i)
clean-print [] i h k = absurd (omega arith)
clean-print (d ∷ s) i h k = clean-digits d s b' ' (unit_name i) h (drop_spaces_end-tail i)

is_zero_text-print :
    (s : Codes) (c : ℕ) (t : Codes) → 1 ≤ length s → is_zero_text (s ++ c ∷ t) ≡ false
is_zero_text-print [] c t h = absurd (omega arith)
is_zero_text-print (d ∷ []) c t h = refl
is_zero_text-print (d ∷ e ∷ s) c t h = refl

-- The digits of `m` and what is behind them, as long as that starts with a space.
parse_float-print : (m : ℕ) (t : Codes) → parse_float (print m ++ b' ' ∷ t) ≡ some (m, 0)
unfolding parse_float after_whole read_digits
parse_float-print m t =
    rw (read_digits-print_from (m + 1) m (b' ' ∷ t) (omega arith))
      (ground (arith, length-print_from (m + 1) m))

fraction_digits-zero : (n i : ℕ) → fraction_digits n i 0 ≡ 0
fraction_digits-zero n i = ground arith

min-min : (n : ℕ) → min (min n 5) 5 ≡ min n 5
min-min n = ground arith

pub one-le-pow : (k : ℕ) → 1 ≤ 1024 ^ k
one-le-pow zero = omega arith
one-le-pow (suc k) = omega (arith, one-le-pow k)

pub round_div-zero : (n m : ℕ) → n == 0 ≡ true → 1 ≤ m → 0 ≡ round_div n m * m
round_div-zero n m e h = rw (div-eq_of_lt {n = 2 * n + m} {m = 2 * m} (ground arith)) (omega arith)

parse_zero : parse_bytes (codes "0 B") ≡ some 0
unfolding parse_bytes
parse_zero = refl

parse_bytes_lem : (s : Codes) → parse_bytes s ≡ parse_clean (clean s)
unfolding parse_bytes
parse_bytes_lem s = refl

parse_clean_lem :
    (s : Codes)
    → is_zero_text s ≡ false
    → parse_clean s ≡ size_of (parse_float s) (read_suffix (skip_number s))
unfolding parse_clean
parse_clean_lem s h = rw h

skip_number-tail : (i : ℕ) → skip_number (map lower (tail i)) ≡ map lower (tail i)
unfolding skip_number lower
skip_number-tail i = refl

parse_float-print-tail : (m i : ℕ) → parse_float (print m ++ map lower (tail i)) ≡ some (m, 0)
unfolding lower
parse_float-print-tail m i = parse_float-print m (map lower (unit_name i))

is_zero_text-print-tail : (m i : ℕ) → is_zero_text (print m ++ map lower (tail i)) ≡ false
is_zero_text-print-tail m i =
    is_zero_text-print (print m) _ _ (length-print_from (m + 1) m (omega arith))

size_of-whole : (m e : ℕ) → size_of (some (m, 0)) (some e) ≡ some (m * 1024 ^ e)
unfolding size_of
size_of-whole m e = ap some (omega arith)

parse_clean-print :
    (m i : ℕ) → parse_clean (print m ++ map lower (tail i)) ≡ some (m * 1024 ^ min i 5)
parse_clean-print m i =
    rw
      (
        parse_clean_lem _ (is_zero_text-print-tail m i),
        parse_float-print-tail m i,
        skip_number-digits (print m) (map lower (tail i)) (print_from-AllDigits (m + 1) m),
        skip_number-tail i,
        read_suffix-tail i,
      )
      (size_of-whole m (min i 5))

pub parse_bytes-print : (m i : ℕ) → parse_bytes (print m ++ tail i) ≡ some (m * 1024 ^ min i 5)
parse_bytes-print m i =
    parse_bytes_lem (print m ++ tail i)
    ∙ ap parse_clean (
        clean-print (print m) i (print_from-AllDigits (m + 1) m)
          (length-print_from (m + 1) m (omega arith)))
    ∙ parse_clean-print m i

-- The byte count of the unit a number prints in
abbrev pub unit_size : (exponent : ℕ → ℕ) → ℕ → ℕ
unit_size exponent n = 1024 ^ min (exponent n) 5

-- The multiple of its unit next to a number
abbrev pub shown_size : (exponent : ℕ → ℕ) → ℕ → ℕ
shown_size exponent n = round_div n (unit_size exponent n) * unit_size exponent n

pub format_bytes-positive :
    (exponent : ℕ → ℕ) (n : ℕ)
    → n == 0 ≡ false
    → format_bytes exponent n 0
      ≡ print (round_div n (unit_size exponent n)) ++ tail (min (exponent n) 5)
unfolding format_bytes
format_bytes-positive exponent n h = rw (h, fraction_digits-zero n (min (exponent n) 5))

format_bytes-zero :
    (exponent : ℕ → ℕ) (n : ℕ) → n == 0 ≡ true → format_bytes exponent n 0 ≡ codes "0 B"
unfolding format_bytes
format_bytes-zero exponent n h = rw h

-- What is printed with no decimals is read as the nearest multiple of the unit.
pub parse_bytes-format_bytes :
    (exponent : ℕ → ℕ) (n : ℕ)
    → parse_bytes (format_bytes exponent n 0) ≡ some (shown_size exponent n)
parse_bytes-format_bytes exponent n = elim (Bool-cases (n == 0)) [
  | inl e ↦
      rw (format_bytes-zero exponent n e, parse_zero)
        (ap some (round_div-zero n (unit_size exponent n) e (one-le-pow (min (exponent n) 5))))
  | inr e ↦ rw (
    format_bytes-positive exponent n e,
    parse_bytes-print (round_div n (unit_size exponent n)) (min (exponent n) 5),
    min-min (exponent n),
  )
]
