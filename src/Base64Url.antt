-- ===== src/Base64Url.antt =====
-- web/src/lib/base64url.ts. A text is the list of its character codes, an array of bytes the list of
-- them. `btoa` and `atob` are those of the web platform (forgiving base64); `none` is that `atob`
-- throws.
pub mod Groups
pub mod Alphabet
pub mod Written
pub mod RoundTrip
mod Tests
use vlessvmorectl.Bytes.{Codes}
use vlessvmorectl.Base.{
  ℕ, zero, suc, ◌+◌, ◌-◌, ◌*◌, ◌/◌, ◌%◌, Bool, true, false, not, ◌||◌, ◌&&◌, Option, none, some,
  List, [], ◌∷◌, ◌++◌, map, keep, length, ltb, leb, ◌==◌, if◌then◌else◌,
}

-- The six-bit numbers of a sequence of bytes, the last filled up with zero bits.
unfoldable pub sextets : List ℕ → List ℕ
sextets [] = []
sextets (a ∷ []) = a / 4 ∷ (a % 4 * 16) ∷ []
sextets (a ∷ b ∷ []) = a / 4 ∷ (a % 4 * 16 + b / 16) ∷ (b % 16 * 4) ∷ []
sextets (a ∷ b ∷ c ∷ bytes) =
    a / 4 ∷ (a % 4 * 16 + b / 16) ∷ (b % 16 * 4 + c / 64) ∷ c % 64 ∷ sextets bytes

unfoldable pub padding : List ℕ → Codes
padding [] = []
padding (a ∷ []) = b'=' ∷ b'=' ∷ []
padding (a ∷ b ∷ []) = b'=' ∷ []
padding (a ∷ b ∷ c ∷ bytes) = padding bytes

-- The alphabet of base64.
unfoldable pub encode_sextet : ℕ → ℕ
encode_sextet n =
    if ltb n 26
    then n + b'A'
    else if ltb n 52
    then n - 26 + b'a'
    else if ltb n 62
    then n - 52 + b'0'
    else if n == 62
    then b'+'
    else b'/'

unfoldable pub decode_sextet : ℕ → Option ℕ
decode_sextet c =
    if leb b'A' c && leb c b'Z'
    then some (c - b'A')
    else if leb b'a' c && leb c b'z'
    then some (c - b'a' + 26)
    else if leb b'0' c && leb c b'9'
    then some (c - b'0' + 52)
    else if c == b'+'
    then some 62
    else if c == b'/'
    then some 63
    else none

unfoldable pub btoa : List ℕ → Codes
unfolding sextets padding encode_sextet
btoa bytes = map encode_sextet (sextets bytes) ++ padding bytes

-- A text without the longest run of one character at its end.
unfoldable pub strip_end : ℕ → Codes → Codes
strip_end e [] = []
strip_end e (c ∷ s) =
    let rest = strip_end e s in
    if c == e then elim rest [ [] ↦ [] | d ∷ t ↦ c ∷ d ∷ t ] else c ∷ rest

-- A text without one character at its end, where it is this one.
unfoldable pub drop_end : ℕ → Codes → Codes
drop_end e [] = []
drop_end e (c ∷ []) = if c == e then [] else c ∷ []
drop_end e (c ∷ d ∷ s) = c ∷ drop_end e (d ∷ s)

-- The bytes of a sequence of six-bit numbers; bits that fill no byte are dropped, and one number
-- alone makes no byte.
unfoldable pub group_bytes : List ℕ → Option (List ℕ)
group_bytes [] = some []
group_bytes (p ∷ []) = none
group_bytes (p ∷ q ∷ []) = some ((p * 4 + q / 16) ∷ [])
group_bytes (p ∷ q ∷ r ∷ []) = some ((p * 4 + q / 16) ∷ (q % 16 * 16 + r / 4) ∷ [])
group_bytes (p ∷ q ∷ r ∷ t ∷ rest) = elim (group_bytes rest) [
  | none ↦ none
  | some bytes ↦ some ((p * 4 + q / 16) ∷ (q % 16 * 16 + r / 4) ∷ (r % 4 * 64 + t) ∷ bytes)
]

unfoldable pub decode_all : Codes → Option (List ℕ)
decode_all [] = some []
decode_all (c ∷ s) = elim (decode_sextet c) [
  | none ↦ none
  | some n ↦ elim (decode_all s) [ none ↦ none | some rest ↦ some (n ∷ rest) ]
]

abbrev pub is_blank : ℕ → Bool
is_blank c = c == 9 || c == 10 || c == 12 || c == 13 || c == 32

abbrev pub without_blanks : Codes → Codes
without_blanks s = keep (λ c. not (is_blank c)) s

unfoldable pub unpad : Codes → Codes
unfolding drop_end
unpad s = if length s % 4 == 0 then drop_end b'=' (drop_end b'=' s) else s

unfoldable pub decode_body : Codes → Option (List ℕ)
unfolding decode_all group_bytes decode_sextet
decode_body s = elim (decode_all s) [ none ↦ none | some numbers ↦ group_bytes numbers ]

unfoldable pub atob : Codes → Option (List ℕ)
unfolding unpad decode_body
atob input = decode_body (unpad (without_blanks input))

-- `replace(/x/g, "y")` of one character
abbrev pub replace : ℕ → ℕ → Codes → Codes
replace x y s = map (λ c. if c == x then y else c) s

abbrev pub repeat : ℕ → ℕ → Codes
repeat c zero = []
repeat c (suc n) = c ∷ repeat c n

unfoldable pub to_base64_url : List ℕ → Codes
unfolding btoa strip_end
to_base64_url bytes = strip_end b'=' (replace b'/' b'_' (replace b'+' b'-' (btoa bytes)))

unfoldable pub from_base64_url : Codes → Option (List ℕ)
unfolding atob
from_base64_url s =
    let padded = replace b'_' b'/' (replace b'-' b'+' s) in
    atob (padded ++ repeat b'=' ((4 - length padded % 4) % 4))
