-- ===== src/WebAuthn/Tests.antt =====
-- A ceremony with small buffers.
use vlessvmorectl.Base.{String, ◌≡◌, refl, Option, List, none, some, [], ◌∷◌, inl, arith}
use vlessvmorectl.Bytes.{Codes}
use vlessvmorectl.Base64Url.{from_base64_url, to_base64_url}
use vlessvmorectl.WebAuthn.{
  Buffer, Descriptor, CreationOptions, Assertion, filtered_transports, to_creation_options,
  get_passkey_assertion,
}
use vlessvmorectl.WebAuthn.Options.{written_options, AreGiven, to_creation_options-written}
use vlessvmorectl.WebAuthn.Answers.{read_assertion, get_passkey_assertion-read}

abbrev phone : Descriptor Buffer
phone = record {
  id = 1 ∷ 2 ∷ [];
  kind = "public-key";
  transports = some ("internal" ∷ "telepathy" ∷ []);
}

abbrev asked : CreationOptions Buffer String String
asked = record {
  challenge = 7 ∷ 255 ∷ [];
  user_id = 9 ∷ [];
  user = "alice";
  exclude_credentials = some (phone ∷ []);
  rest = "";
}

nothing_known : filtered_transports (some ("telepathy" ∷ [])) ≡ none
unfolding filtered_transports
nothing_known = refl

internal_only :
    to_creation_options (written_options asked)
    ≡ some (record asked {
      exclude_credentials = some (record phone { transports = some ("internal" ∷ []) } ∷ []);
    })
unfolding to_creation_options from_base64_url to_base64_url
internal_only = refl

to_creation_options-written_example :
    (given : Option (List (Descriptor Buffer))) × (to_creation_options (written_options asked)
      ≡ some (record asked { exclude_credentials = given }))
    × AreGiven asked.exclude_credentials given
to_creation_options-written_example =
    to_creation_options-written asked (omega arith) (omega arith) (omega arith)

abbrev answer : Assertion Buffer String
answer = record {
  id = "AQI";
  raw_id = 1 ∷ 2 ∷ [];
  kind = "public-key";
  extensions = "";
  client_data = 3 ∷ [];
  authenticator_data = 4 ∷ [];
  signature = 5 ∷ 6 ∷ 7 ∷ [];
  user_handle = none;
}

get_passkey_assertion-read_example :
    (a : Assertion Codes String) × (get_passkey_assertion (some answer) ≡ inl a)
    × (read_assertion a ≡ some answer)
get_passkey_assertion-read_example =
    get_passkey_assertion-read answer (omega arith) (omega arith) (omega arith) (omega arith) tt
