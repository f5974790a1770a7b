-- ===== src/WebAuthn.antt =====
-- web/src/features/passkeys/webauthn.ts: what goes into a ceremony and what comes out of it. A text in
-- base64url is a list of character codes, a buffer the list of its bytes. What is copied verbatim is of
-- any type: `Rest` of the options, `User` of the user, `Extensions` of the results of extensions.
-- `none` is that `fromBase64Url` throws.
pub mod Options
pub mod Answers
mod Tests
use mathlib.Core.Option
use vlessvmorectl.Base.{
  String, Bool, true, false, Option, none, some, List, [], ◌∷◌, keep, any, str_eq, truthy, ◌⊎◌, inl,
  inr, ℕ, or_default, if◌then◌else◌,
}
use vlessvmorectl.Bytes.{Codes}
use vlessvmorectl.Base64Url.{to_base64_url, from_base64_url}
use vlessvmorectl.Passkeys.{Caught, dom_exception}

abbrev pub Buffer : Type 0
Buffer = List ℕ

-- `I` is the type of an identifier: a text in base64url, or a buffer.
pub record Descriptor (I : Type 0) : Type 0 where
  pub id : I
  pub kind : String
  pub transports : Option (List String)

pub record CreationOptions (I Rest User : Type 0) : Type 0 where
  pub challenge : I
  pub user_id : I
  pub user : User
  pub exclude_credentials : Option (List (Descriptor I))
  pub rest : Rest

pub record AssertionOptions (I Rest : Type 0) : Type 0 where
  pub challenge : I
  pub allow_credentials : Option (List (Descriptor I))
  pub rest : Rest

abbrev pub known_transports : List String
known_transports = "usb" ∷ "nfc" ∷ "ble" ∷ "hybrid" ∷ "internal" ∷ "smart-card" ∷ []

unfoldable pub is_known_transport : String → Bool
is_known_transport t = any (λ k. str_eq k t) known_transports

abbrev pub non_empty_list : List String → Option (List String)
non_empty_list [] = none
non_empty_list (t ∷ ts) = some (t ∷ ts)

-- `d.transports?.filter(…)`, left out where nothing remains
unfoldable pub filtered_transports : Option (List String) → Option (List String)
unfolding is_known_transport
filtered_transports none = none
filtered_transports (some ts) = non_empty_list (keep is_known_transport ts)

unfoldable pub descriptor : Descriptor Codes → Option (Descriptor Buffer)
unfolding filtered_transports
descriptor d = elim (from_base64_url d.id) [
  | none ↦ none
  | some id ↦
      some (record { id = id; kind = d.kind; transports = filtered_transports d.transports })
]

unfoldable pub descriptor_list : List (Descriptor Codes) → Option (List (Descriptor Buffer))
unfolding descriptor
descriptor_list [] = some []
descriptor_list (d ∷ ds) = elim (descriptor d) [
  | none ↦ none
  | some e ↦ elim (descriptor_list ds) [ none ↦ none | some es ↦ some (e ∷ es) ]
]

unfoldable pub descriptors :
    Option (List (Descriptor Codes)) → Option (Option (List (Descriptor Buffer)))
unfolding descriptor_list
descriptors none = some none
descriptors (some ds) = elim (descriptor_list ds) [ none ↦ none | some es ↦ some (some es) ]

infixl 5 ◌>>=◌
abbrev pub ◌>>=◌ : {A B : Type 0} → Option A → (A → Option B) → Option B
m >>= f = elim m [ none ↦ none | some a ↦ f a ]

module _ {Rest : Type 0} where
  unfoldable pub to_creation_options :
      {User : Type 0} → CreationOptions Codes Rest User → Option (CreationOptions Buffer Rest User)
  unfolding descriptors
  to_creation_options o = do
    challenge ← from_base64_url o.challenge
    user_id ← from_base64_url o.user_id
    exclude_credentials ← descriptors o.exclude_credentials
    some (record {
      challenge = challenge;
      user_id = user_id;
      user = o.user;
      exclude_credentials = exclude_credentials;
      rest = o.rest;
    })

  unfoldable pub to_request_options :
      AssertionOptions Codes Rest → Option (AssertionOptions Buffer Rest)
  unfolding descriptors
  to_request_options o = do
    challenge ← from_base64_url o.challenge
    allow_credentials ← descriptors o.allow_credentials
    some (record { challenge = challenge; allow_credentials = allow_credentials; rest = o.rest })

-- A credential that the browser has made, with the response to an attestation; `get_transports` is
-- absent where the browser has no such method.
pub record Attestation (I Extensions : Type 0) : Type 0 where
  pub id : String
  pub raw_id : I
  pub kind : String
  pub attachment : Option String
  pub extensions : Extensions
  pub client_data : I
  pub attestation_object : I
  pub transports : Option (List String)

pub record Registration (Extensions : Type 0) : Type 0 where
  pub credential : Attestation Codes Extensions
  pub discoverable : Bool

-- A credential with the response to an assertion.
pub record Assertion (I Extensions : Type 0) : Type 0 where
  pub id : String
  pub raw_id : I
  pub kind : String
  pub extensions : Extensions
  pub client_data : I
  pub authenticator_data : I
  pub signature : I
  pub user_handle : Option I

abbrev truthy_text : Option String → Option String
truthy_text none = none
truthy_text (some s) = if truthy s then some s else none

module _ {Extensions : Type 0} where
  unfoldable pub attestation_body : Attestation Buffer Extensions → Attestation Codes Extensions
  attestation_body c = record {
    id = c.id;
    raw_id = to_base64_url c.raw_id;
    kind = c.kind;
    attachment = truthy_text c.attachment;
    extensions = c.extensions;
    client_data = to_base64_url c.client_data;
    attestation_object = to_base64_url c.attestation_object;
    transports = some (or_default c.transports []);
  }

  -- What `createPasskey` makes of what the browser gave; `rk` is `extensions.credProps?.rk`.
  unfoldable pub create_passkey :
      (rk : Extensions → Option Bool)
      → Option (Attestation Buffer Extensions)
      → Registration Extensions ⊎ Caught
  unfolding attestation_body
  create_passkey rk none = inr (dom_exception "NotAllowedError" "no credential was created")
  create_passkey rk (some c) =
      inl (record {
        credential = attestation_body c;
        discoverable = or_default (rk c.extensions) true;
      })

  unfoldable pub assertion_body : Assertion Buffer Extensions → Assertion Codes Extensions
  assertion_body c = record {
    id = c.id;
    raw_id = to_base64_url c.raw_id;
    kind = c.kind;
    extensions = c.extensions;
    client_data = to_base64_url c.client_data;
    authenticator_data = to_base64_url c.authenticator_data;
    signature = to_base64_url c.signature;
    user_handle = Option.map to_base64_url c.user_handle;
  }

  -- What `getPasskeyAssertion` makes of what the browser gave.
  unfoldable pub get_passkey_assertion :
      Option (Assertion Buffer Extensions) → Assertion Codes Extensions ⊎ Caught
  unfolding assertion_body
  get_passkey_assertion none = inr (dom_exception "NotAllowedError" "no assertion was produced")
  get_passkey_assertion (some c) = inl (assertion_body c)
