-- ===== src/Bytes.antt =====
-- web/src/lib/format.ts: formatBytes and parseBytes. A text is the list of its character codes here.
-- Byte counts are natural numbers, so they are finite; `exponent n` stands for
-- `Math.floor(Math.log(n) / Math.log(1024))`, whose rounding the language leaves open. The decimal
-- numbers of a size are exact here: JavaScript rounds one of more than 15 digits.
pub mod Digits
pub mod Clean
pub mod RoundTrip
pub mod Exact
mod Tests
use Prim.Native.Char.{code}
use vlessvmorectl.Base.{
  is_space, ℕ, zero, suc, ◌+◌, ◌-◌, ◌*◌, ◌/◌, ◌%◌, ◌^◌, min, String, Bool, true, false, ◌&&◌, ◌||◌,
  Option, none, some, List, [], ◌∷◌, ◌++◌, map, ltb, leb, ◌==◌, if◌then◌else◌,
}

abbrev pub Codes : Type 0
Codes = List ℕ

abbrev pub codes : String → Codes
codes String.[] = []
codes (String.◌∷◌ c s) = code c ∷ codes s

abbrev pub is_digit : ℕ → Bool
is_digit c = leb b'0' c && leb c b'9'

-- A number in decimal. Fuel above the number is enough.
unfoldable pub print_from : ℕ → ℕ → Codes
print_from zero n = []
print_from (suc fuel) n =
    let more = print_from fuel (n / 10) ++ (b'0' + n % 10) ∷ [] in
    if ltb n 10 then (b'0' + n) ∷ [] else more

abbrev pub print : ℕ → Codes
print n = print_from (n + 1) n

-- The last `d` digits of a number.
unfoldable pub print_last : ℕ → ℕ → Codes
print_last zero n = []
print_last (suc d) n = print_last d (n / 10) ++ (b'0' + n % 10) ∷ []

-- `n / m` rounded, a half upwards
abbrev pub round_div : ℕ → ℕ → ℕ
round_div n m = (2 * n + m) / (2 * m)

-- `(n / m).toFixed(d)`
unfoldable pub to_fixed : ℕ → ℕ → ℕ → Codes
unfolding print_from print_last
to_fixed n m zero = print (round_div n m)
to_fixed n m (suc d) =
    let scaled = round_div (n * 10 ^ suc d) m in
    print (scaled / 10 ^ suc d) ++ (b'.' ∷ print_last (suc d) (scaled % 10 ^ suc d))

-- The `units` of `formatBytes`, of which the last is at 5.
abbrev pub unit_name : ℕ → Codes
unit_name zero = codes "B"
unit_name (suc zero) = codes "KB"
unit_name (suc (suc zero)) = codes "MB"
unit_name (suc (suc (suc zero))) = codes "GB"
unit_name (suc (suc (suc (suc zero)))) = codes "TB"
unit_name _ = codes "PB"

abbrev pub fraction_digits : ℕ → ℕ → ℕ → ℕ
fraction_digits n i digits = if i == 0 then 0 else if leb (100 * 1024 ^ i) n then 0 else digits

unfoldable pub format_bytes : (exponent : ℕ → ℕ) → ℕ → ℕ → Codes
unfolding to_fixed
format_bytes exponent n digits =
    let i = min (exponent n) 5 in
    if n == 0
    then codes "0 B"
    else to_fixed n (1024 ^ i) (fraction_digits n i digits) ++ (b' ' ∷ unit_name i)

-- `trim` and `toLowerCase`. Of the characters outside ASCII only the Kelvin sign has a letter of a
-- size in lower case; what becomes of the others does not matter to a size.
unfoldable pub drop_spaces : Codes → Codes
unfolding is_space
drop_spaces [] = []
drop_spaces (c ∷ s) = let rest = drop_spaces s in if is_space c then rest else c ∷ s

abbrev pub is_empty : Codes → Bool
is_empty [] = true
is_empty (c ∷ s) = false

unfoldable pub drop_spaces_end : Codes → Codes
unfolding is_space
drop_spaces_end [] = []
drop_spaces_end (c ∷ s) =
    let rest = drop_spaces_end s in if is_space c && is_empty rest then [] else c ∷ rest

unfoldable pub lower : ℕ → ℕ
lower c = if leb b'A' c && leb c b'Z' then c + 32 else if c == 0x212a then b'k' else c

unfoldable pub clean : Codes → Codes
unfolding drop_spaces drop_spaces_end lower
clean input = map lower (drop_spaces_end (drop_spaces input))

-- The digits at the front of a text: their value after `acc`, how many they are, and the rest.
unfoldable pub read_digits : ℕ → ℕ → Codes → ℕ × ℕ × Codes
read_digits acc k [] = (acc, k, [])
read_digits acc k (c ∷ s) =
    let more = read_digits (10 * acc + (c - b'0')) (k + 1) s in
    if is_digit c then more else (acc, k, c ∷ s)

-- The rest after `[\d.]+`, which also takes what `parseFloat` does not read.
unfoldable pub skip_number : Codes → Codes
skip_number [] = []
skip_number (c ∷ s) = let rest = skip_number s in if is_digit c || c == b'.' then rest else c ∷ s

-- The unit and its power of 1024.
abbrev pub unit_power : ℕ → Option ℕ
unit_power c =
    if c == b'k'
    then some 1
    else if c == b'm'
    then some 2
    else if c == b'g'
    then some 3
    else if c == b't'
    then some 4
    else if c == b'p'
    then some 5
    else none

abbrev pub take_unit : Codes → ℕ × Codes
take_unit [] = (0, [])
take_unit (c ∷ s) = elim (unit_power c) [ none ↦ (0, c ∷ s) | some e ↦ (e, s) ]

abbrev pub skip_letter : ℕ → Codes → Codes
skip_letter l [] = []
skip_letter l (c ∷ s) = if c == l then s else c ∷ s

-- `\s*([kmgtp]?)i?b?$`
unfoldable pub read_suffix : Codes → Option ℕ
unfolding drop_spaces
read_suffix s =
    let (e, rest) = take_unit (drop_spaces s) in
    if is_empty (skip_letter b'b' (skip_letter b'i' rest)) then some e else none

-- `parseFloat` of a text of digits and dots: a whole number over a power of ten, or not a number.
unfoldable pub after_whole : ℕ × ℕ × Codes → Option (ℕ × ℕ)
unfolding read_digits
after_whole (m, k, []) = if k == 0 then none else some (m, 0)
after_whole (m, k, c ∷ s) =
    let (n, j, rest) = read_digits m 0 s in
    if c == b'.'
    then (if k + j == 0 then none else some (n, j))
    else if k == 0
    then none
    else some (m, 0)

unfoldable pub parse_float : Codes → Option (ℕ × ℕ)
unfolding after_whole
parse_float s = after_whole (read_digits 0 0 s)

-- The size of a number and a power of 1024, rounded.
unfoldable pub size_of : Option (ℕ × ℕ) → Option ℕ → Option ℕ
size_of none e = none
size_of (some v) none = none
size_of (some (m, k)) (some e) = some (round_div (m * 1024 ^ e) (10 ^ k))

abbrev pub is_zero_text : Codes → Bool
is_zero_text [] = true
is_zero_text (c ∷ []) = c == b'0'
is_zero_text (c ∷ d ∷ s) = false

unfoldable pub parse_clean : Codes → Option ℕ
unfolding parse_float skip_number read_suffix size_of
parse_clean s =
    if is_zero_text s then some 0 else size_of (parse_float s) (read_suffix (skip_number s))

unfoldable pub parse_bytes : Codes → Option ℕ
unfolding clean parse_clean
parse_bytes input = parse_clean (clean input)
