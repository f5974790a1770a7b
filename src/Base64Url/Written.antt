-- ===== src/Base64Url/Written.antt =====
-- What toBase64Url writes.
use mathlib.Core.List.{map-append}
use vlessvmorectl.Base.{ℕ, ◌≡◌, refl, true, false, List, [], ◌∷◌, ◌++◌, map, All, ◌==◌, arith, ap}
use vlessvmorectl.Bytes.{Codes}
use vlessvmorectl.Base64Url.{sextets, padding, encode_sextet, strip_end, replace, to_base64_url}
use vlessvmorectl.Base64Url.Groups.{AreBytes, AreSextets, sextets-AreSextets}
use vlessvmorectl.Base64Url.Alphabet.{is_url_safe, url_code, is_url_safe-encode_sextet}

abbrev pub Ends : Codes → Type 0
Ends = All (λ c. (c == b'=') ≡ false)

abbrev pub encoded : List ℕ → Codes
encoded xs = map encode_sextet xs

abbrev pub url_encoded : List ℕ → Codes
url_encoded xs = map (λ n. url_code (encode_sextet n)) xs

-- The two replacements at once, in each direction.
replace-replace : (s : Codes) → replace b'/' b'_' (replace b'+' b'-' s) ≡ map url_code s
replace-replace [] = refl
replace-replace (c ∷ s) = ap (λ t. url_code c ∷ t) (replace-replace s)

map-url_code : (xs : List ℕ) → map url_code (encoded xs) ≡ url_encoded xs
map-url_code [] = refl
map-url_code (x ∷ xs) = ap (λ t. url_code (encode_sextet x) ∷ t) (map-url_code xs)

map-padding : (bytes : List ℕ) → map url_code (padding bytes) ≡ padding bytes
unfolding padding
map-padding [] = refl
map-padding (a ∷ []) = refl
map-padding (a ∷ b ∷ []) = refl
map-padding (a ∷ b ∷ c ∷ bytes) = map-padding bytes

strip_end-padding : (bytes : List ℕ) → strip_end b'=' (padding bytes) ≡ []
unfolding padding strip_end
strip_end-padding [] = refl
strip_end-padding (a ∷ []) = refl
strip_end-padding (a ∷ b ∷ []) = refl
strip_end-padding (a ∷ b ∷ c ∷ bytes) = strip_end-padding bytes

strip_end-append : (s t : Codes) → Ends s → strip_end b'=' t ≡ [] → strip_end b'=' (s ++ t) ≡ s
unfolding strip_end
strip_end-append [] t h e = e
strip_end-append (c ∷ s) t (p, h) e = rw p (ap (λ r. c ∷ r) (strip_end-append s t h e))

url_encoded-Ends : (xs : List ℕ) → AreSextets xs → Ends (url_encoded xs)
url_encoded-Ends [] h = tt
url_encoded-Ends (x ∷ xs) (p, h) =
    (ground (arith, is_url_safe-encode_sextet x p), url_encoded-Ends xs h)

-- Written without padding.
pub to_base64_url_lem :
    (bytes : List ℕ) → AreBytes bytes → to_base64_url bytes ≡ url_encoded (sextets bytes)
unfolding to_base64_url
to_base64_url_lem bytes h =
    let xs = sextets bytes in
    rw
      (
        replace-replace (encoded xs ++ padding bytes),
        map-append url_code (encoded xs) (padding bytes),
        map-url_code xs,
        map-padding bytes,
      )
      (strip_end-append (url_encoded xs) (padding bytes)
        (url_encoded-Ends xs (sextets-AreSextets bytes h)) (strip_end-padding bytes))

url_encoded-safe : (xs : List ℕ) → AreSextets xs → All (λ c. is_url_safe c ≡ true) (url_encoded xs)
url_encoded-safe [] h = tt
url_encoded-safe (x ∷ xs) (p, h) = (is_url_safe-encode_sextet x p, url_encoded-safe xs h)

-- What bytes are written as has letters, digits, `-` and `_` only, so no padding and nothing that a
-- URL or JSON escapes.
pub to_base64_url-safe :
    (bytes : List ℕ) → AreBytes bytes → All (λ c. is_url_safe c ≡ true) (to_base64_url bytes)
to_base64_url-safe bytes h =
    rw (to_base64_url_lem bytes h) (url_encoded-safe (sextets bytes) (sextets-AreSextets bytes h))
