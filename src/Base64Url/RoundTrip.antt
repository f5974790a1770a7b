-- ===== src/Base64Url/RoundTrip.antt =====
-- fromBase64Url on what toBase64Url writes.
use mathlib.Core.List.{append_assoc, append-nil}
use vlessvmorectl.Base.{
  ℕ, ◌+◌, ◌-◌, ◌%◌, ◌≡◌, refl, not, some, List, [], ◌∷◌, ◌++◌, map, keep, length, length-append,
  length-map, arith, ap, ap₂, ◌∙◌, sym,
}
use vlessvmorectl.Bytes.{Codes}
use vlessvmorectl.Base64Url.{
  sextets, padding, encode_sextet, decode_all, drop_end, group_bytes, is_blank, replace, repeat,
  atob, unpad, decode_body, without_blanks, to_base64_url, from_base64_url,
}
use vlessvmorectl.Base64Url.Groups.{
  AreBytes, AreSextets, sextets-AreSextets, group_bytes-sextets, repeat-padding,
}
use vlessvmorectl.Base64Url.Alphabet.{
  plain_code, decode_sextet-encode_sextet, plain_code-url_code, is_url_safe-encode_sextet,
  is_blank-encode_sextet,
}
use vlessvmorectl.Base64Url.Written.{Ends, encoded, url_encoded, to_base64_url_lem}

replace-replace_back : (s : Codes) → replace b'_' b'/' (replace b'-' b'+' s) ≡ map plain_code s
replace-replace_back [] = refl
replace-replace_back (c ∷ s) = ap (λ t. plain_code c ∷ t) (replace-replace_back s)

map-plain_code : (xs : List ℕ) → AreSextets xs → map plain_code (url_encoded xs) ≡ encoded xs
map-plain_code [] h = refl
map-plain_code (x ∷ xs) (p, h) = ap₂ (λ a s. a ∷ s) (plain_code-url_code x p) (map-plain_code xs h)

encoded-Ends : (xs : List ℕ) → AreSextets xs → Ends (encoded xs)
encoded-Ends [] h = tt
encoded-Ends (x ∷ xs) (p, h) = (ground (arith, is_url_safe-encode_sextet x p), encoded-Ends xs h)

drop_end-none : (s : Codes) → Ends s → drop_end b'=' s ≡ s
unfolding drop_end
drop_end-none [] h = refl
drop_end-none (c ∷ []) (p, h) = rw p refl
drop_end-none (c ∷ d ∷ s) (p, h) = ap (λ r. c ∷ r) (drop_end-none (d ∷ s) h)

drop_end-one : (s : Codes) → drop_end b'=' (s ++ b'=' ∷ []) ≡ s
unfolding drop_end
drop_end-one [] = refl
drop_end-one (c ∷ []) = refl
drop_end-one (c ∷ d ∷ s) = ap (λ r. c ∷ r) (drop_end-one (d ∷ s))

drop_end-padding :
    (bytes : List ℕ) (s : Codes) → Ends s → drop_end b'=' (drop_end b'=' (s ++ padding bytes)) ≡ s
unfolding padding
drop_end-padding [] s h = rw (append-nil s, drop_end-none s h) (drop_end-none s h)
drop_end-padding (a ∷ []) s h =
    ap (drop_end b'=') (
      ap (drop_end b'=') (sym (append_assoc s (b'=' ∷ []) (b'=' ∷ [])))
      ∙ drop_end-one (s ++ b'=' ∷ []))
    ∙ drop_end-one s
drop_end-padding (a ∷ b ∷ []) s h = ap (drop_end b'=') (drop_end-one s) ∙ drop_end-none s h
drop_end-padding (a ∷ b ∷ c ∷ bytes) s h = drop_end-padding bytes s h

length-padded : (bytes : List ℕ) → (length (sextets bytes) + length (padding bytes)) % 4 ≡ 0
unfolding sextets padding
length-padded [] = refl
length-padded (a ∷ []) = refl
length-padded (a ∷ b ∷ []) = refl
length-padded (a ∷ b ∷ c ∷ bytes) = omega (arith, length-padded bytes)

keep-padding : (bytes : List ℕ) → keep (λ c. not (is_blank c)) (padding bytes) ≡ padding bytes
unfolding padding
keep-padding [] = refl
keep-padding (a ∷ []) = refl
keep-padding (a ∷ b ∷ []) = refl
keep-padding (a ∷ b ∷ c ∷ bytes) = keep-padding bytes

keep-encoded :
    (xs : List ℕ) (t : Codes)
    → AreSextets xs
    → keep (λ c. not (is_blank c)) (encoded xs ++ t) ≡ encoded xs ++ keep (λ c. not (is_blank c)) t
keep-encoded [] t h = refl
keep-encoded (x ∷ xs) t (p, h) =
    rw (is_blank-encode_sextet x p) (ap (λ r. encode_sextet x ∷ r) (keep-encoded xs t h))

decode_all-encoded : (xs : List ℕ) → AreSextets xs → decode_all (encoded xs) ≡ some xs
unfolding decode_all
decode_all-encoded [] h = refl
decode_all-encoded (x ∷ xs) (p, h) =
    ground (arith, decode_sextet-encode_sextet x p, decode_all-encoded xs h)

padded_length : (bytes : List ℕ) → length (encoded (sextets bytes) ++ padding bytes) % 4 ≡ 0
padded_length bytes = omega (
  arith,
  length-padded bytes,
  length-append (encoded (sextets bytes)) (padding bytes),
  length-map encode_sextet (sextets bytes),
)

atob_lem : (s : Codes) → atob s ≡ decode_body (unpad (without_blanks s))
unfolding atob
atob_lem s = refl

unpad_lem : (s t : Codes) → length s % 4 ≡ 0 → drop_end b'=' (drop_end b'=' s) ≡ t → unpad s ≡ t
unfolding unpad
unpad_lem s t h e = rw h e

decode_body_lem :
    (s : Codes) (xs : List ℕ) → decode_all s ≡ some xs → decode_body s ≡ group_bytes xs
unfolding decode_body
decode_body_lem s xs e = ground (arith, e)

atob-btoa :
    (bytes : List ℕ) → AreBytes bytes → atob (encoded (sextets bytes) ++ padding bytes) ≡ some bytes
atob-btoa bytes h =
    let xs = sextets bytes in
    let small = sextets-AreSextets bytes h in
    let whole = encoded xs ++ padding bytes in
    atob_lem whole
    ∙ ap (λ s. decode_body (unpad s))
        (keep-encoded xs (padding bytes) small ∙ ap (λ s. encoded xs ++ s) (keep-padding bytes))
    ∙ ap decode_body (
        unpad_lem whole (encoded xs) (padded_length bytes)
          (drop_end-padding bytes (encoded xs) (encoded-Ends xs small)))
    ∙ decode_body_lem (encoded xs) xs (decode_all-encoded xs small)
    ∙ group_bytes-sextets bytes h

from_base64_url_lem :
    (s : Codes)
    → from_base64_url s
      ≡ atob (map plain_code s ++ repeat b'=' ((4 - length (map plain_code s) % 4) % 4))
unfolding from_base64_url
from_base64_url_lem s = rw (replace-replace_back s) refl

padding-encoded :
    (bytes : List ℕ) → repeat b'=' ((4 - length (encoded (sextets bytes)) % 4) % 4) ≡ padding bytes
padding-encoded bytes = rw (length-map encode_sextet (sextets bytes)) (repeat-padding bytes)

-- Every sequence of bytes is read back from what it is written as.
pub from_base64_url-to_base64_url :
    (bytes : List ℕ) → AreBytes bytes → from_base64_url (to_base64_url bytes) ≡ some bytes
from_base64_url-to_base64_url bytes h =
    rw
      (
        to_base64_url_lem bytes h,
        from_base64_url_lem (url_encoded (sextets bytes)),
        map-plain_code (sextets bytes) (sextets-AreSextets bytes h),
        padding-encoded bytes,
      )
      (atob-btoa bytes h)
