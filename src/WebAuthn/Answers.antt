-- ===== src/WebAuthn/Answers.antt =====
-- What a reader of base64url finds in the answer to a ceremony.
use mathlib.Core.Option
use vlessvmorectl.Base.{
  ◌≡◌, refl, Option, none, some, inl, arith, ℕ, ◌<◌, ◌+◌, ◌-◌, ◌*◌, ◌/◌, ◌%◌, ◌&&◌, ◌==◌, leb, List,
  [], ◌∷◌, if◌then◌else◌,
}
use vlessvmorectl.Bytes.{Codes}
use vlessvmorectl.Base64Url.{to_base64_url, sextets, encode_sextet}
use vlessvmorectl.Base64Url.Alphabet.{url_code}
use vlessvmorectl.Base64Url.Groups.{AreBytes, AreSextets, sextets-AreSextets}
use vlessvmorectl.Base64Url.Written.{url_encoded, to_base64_url_lem}
use vlessvmorectl.WebAuthn.{Buffer, Assertion, get_passkey_assertion, assertion_body, ◌>>=◌}

-- base64url as RFC 4648 has it, read strictly: the digits are A-Z, a-z, 0-9, '-' and '_', and a padded
-- text or one with a digit of plain base64 is refused. Four digits are three bytes.
unfoldable pub url_digit : ℕ → Option ℕ
url_digit c =
    if leb b'A' c && leb c b'Z'
    then some (c - b'A')
    else if leb b'a' c && leb c b'z'
    then some (c - b'a' + 26)
    else if leb b'0' c && leb c b'9'
    then some (c - b'0' + 52)
    else if c == b'-'
    then some 62
    else if c == b'_'
    then some 63
    else none

unfoldable pub url_digits : Codes → Option (List ℕ)
unfolding url_digit
url_digits [] = some []
url_digits (c ∷ s) = elim (url_digit c) [
  | none ↦ none
  | some n ↦ elim (url_digits s) [ none ↦ none | some rest ↦ some (n ∷ rest) ]
]

unfoldable pub bytes_of_digits : List ℕ → Option Buffer
bytes_of_digits [] = some []
bytes_of_digits (p ∷ []) = none
bytes_of_digits (p ∷ q ∷ []) = some (((p * 64 + q) / 16) ∷ [])
bytes_of_digits (p ∷ q ∷ r ∷ []) =
    let word : ℕ = (p * 64 + q) * 64 + r in some ((word / 1024) ∷ (word / 4 % 256) ∷ [])
bytes_of_digits (p ∷ q ∷ r ∷ t ∷ rest) =
    let word : ℕ = ((p * 64 + q) * 64 + r) * 64 + t in
    elim (bytes_of_digits rest) [
      | none ↦ none
      | some bytes ↦ some ((word / 65536) ∷ (word / 256 % 256) ∷ word % 256 ∷ bytes)
    ]

unfoldable pub read_url : Codes → Option Buffer
unfolding url_digits bytes_of_digits
read_url s = elim (url_digits s) [ none ↦ none | some digits ↦ bytes_of_digits digits ]

url_digit-url_code : (n : ℕ) → n < 64 → url_digit (url_code (encode_sextet n)) ≡ some n
unfolding url_digit encode_sextet
url_digit-url_code n h = ground arith

url_digits-url_encoded : (xs : List ℕ) → AreSextets xs → url_digits (url_encoded xs) ≡ some xs
unfolding url_digits
url_digits-url_encoded [] h = refl
url_digits-url_encoded (n ∷ xs) (p, h) =
    ground (arith, url_digit-url_code n p, url_digits-url_encoded xs h)

bytes_of_digits-sextets :
    (bytes : List ℕ) → AreBytes bytes → bytes_of_digits (sextets bytes) ≡ some bytes
unfolding sextets bytes_of_digits
bytes_of_digits-sextets [] h = refl
bytes_of_digits-sextets (a ∷ []) h = ground arith
bytes_of_digits-sextets (a ∷ b ∷ []) h = ground arith
bytes_of_digits-sextets (a ∷ b ∷ c ∷ bytes) (p, (q, (r, h))) =
    ground (arith, bytes_of_digits-sextets bytes h)

read_url-to_base64_url :
    (bytes : List ℕ) → AreBytes bytes → read_url (to_base64_url bytes) ≡ some bytes
unfolding read_url
read_url-to_base64_url bytes h =
    let digits = url_digits-url_encoded (sextets bytes) (sextets-AreSextets bytes h) in
    rw (to_base64_url_lem bytes h) (ground (arith, digits, bytes_of_digits-sextets bytes h))

abbrev read_optional : Option Codes → Option (Option Buffer)
read_optional none = some none
read_optional (some s) = elim (read_url s) [ none ↦ none | some b ↦ some (some b) ]

abbrev pub OptionalBytes : Option Buffer → Type 0
OptionalBytes none = Unit
OptionalBytes (some b) = AreBytes b

read_optional-written :
    (o : Option Buffer) → OptionalBytes o → read_optional (Option.map to_base64_url o) ≡ some o
read_optional-written none h = refl
read_optional-written (some b) h = ground (arith, read_url-to_base64_url b h)

module _ {Extensions : Type 0} where
  -- An assertion whose buffers are read, field by field
  abbrev pub read_assertion : Assertion Codes Extensions → Option (Assertion Buffer Extensions)
  read_assertion a = do
    raw_id ← read_url a.raw_id
    client_data ← read_url a.client_data
    authenticator_data ← read_url a.authenticator_data
    signature ← read_url a.signature
    user_handle ← read_optional a.user_handle
    some (record a {
      raw_id = raw_id;
      client_data = client_data;
      authenticator_data = authenticator_data;
      signature = signature;
      user_handle = user_handle;
    })

  -- What a ceremony of sign-in hands to the panel reads, by a strict reader of base64url, as exactly
  -- what the authenticator gave: every buffer byte for byte, the user handle where there is one, and
  -- the rest verbatim.
  pub get_passkey_assertion-read :
      (c : Assertion Buffer Extensions)
      → AreBytes c.raw_id
      → AreBytes c.client_data
      → AreBytes c.authenticator_data
      → AreBytes c.signature
      → OptionalBytes c.user_handle
      → (a : Assertion Codes Extensions) × (get_passkey_assertion (some c) ≡ inl a)
        × (read_assertion a ≡ some c)
  unfolding get_passkey_assertion
  get_passkey_assertion-read c p q r s t = (
    assertion_body c,
    refl,
    rw
        (
          read_url-to_base64_url c.raw_id p,
          read_url-to_base64_url c.client_data q,
          read_url-to_base64_url c.authenticator_data r,
          read_url-to_base64_url c.signature s,
          read_optional-written c.user_handle t,
        )
        refl,
  )
