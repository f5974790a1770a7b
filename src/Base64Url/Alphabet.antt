-- ===== src/Base64Url/Alphabet.antt =====
-- The alphabets of base64 and base64url, character by character.
use vlessvmorectl.Base.{
  ℕ, ◌<◌, ◌≡◌, Bool, true, false, ◌||◌, ◌&&◌, some, leb, ◌==◌, if◌then◌else◌, arith,
}
use vlessvmorectl.Base64Url.{encode_sextet, decode_sextet, is_blank}

-- The alphabet of base64url: letters, digits, `-` and `_`.
abbrev pub is_url_safe : ℕ → Bool
is_url_safe c =
    (leb b'A' c && leb c b'Z')
    || (leb b'a' c && leb c b'z')
    || (leb b'0' c && leb c b'9')
    || c == b'-'
    || c == b'_'

-- The character of base64url in place of a character of base64.
abbrev pub url_code : ℕ → ℕ
url_code c = let d : ℕ = if c == b'+' then b'-' else c in if d == b'/' then b'_' else d

abbrev pub plain_code : ℕ → ℕ
plain_code c = let d : ℕ = if c == b'-' then b'+' else c in if d == b'_' then b'/' else d

module _ (n : ℕ) (h : n < 64) where
  pub decode_sextet-encode_sextet : decode_sextet (encode_sextet n) ≡ some n
  unfolding decode_sextet encode_sextet
  decode_sextet-encode_sextet = ground arith

  pub plain_code-url_code : plain_code (url_code (encode_sextet n)) ≡ encode_sextet n
  unfolding encode_sextet
  plain_code-url_code = ground arith

  pub is_url_safe-encode_sextet : is_url_safe (url_code (encode_sextet n)) ≡ true
  unfolding encode_sextet
  is_url_safe-encode_sextet = ground arith

  pub is_blank-encode_sextet : is_blank (encode_sextet n) ≡ false
  unfolding encode_sextet
  is_blank-encode_sextet = ground arith
