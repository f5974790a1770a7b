-- ===== src/WebAuthn/Options.antt =====
-- What the browser is asked, against the options that the server has written.
use mathlib.Core.Option
use vlessvmorectl.Base.{
  ◌≡◌, refl, Option, none, some, List, [], ◌∷◌, map, All, arith, String, In, true, false, keep,
  Bool-cases, inl, inr, eq_iff,
}
use vlessvmorectl.Base64Url.{to_base64_url}
use vlessvmorectl.Base64Url.Groups.{AreBytes}
use vlessvmorectl.Base64Url.RoundTrip.{from_base64_url-to_base64_url}
use vlessvmorectl.Bytes.{Codes}
use vlessvmorectl.WebAuthn.{
  Buffer, Descriptor, CreationOptions, is_known_transport, non_empty_list, filtered_transports,
  descriptor, descriptor_list, descriptors, to_creation_options,
}

-- A descriptor as the server writes it, and as the browser takes it.
abbrev pub written : Descriptor Buffer → Descriptor Codes
written d = record { id = to_base64_url d.id; kind = d.kind; transports = d.transports }

abbrev without_unknown : Descriptor Buffer → Descriptor Buffer
without_unknown d = record d { transports = filtered_transports d.transports }

abbrev pub HasBytes : Descriptor Buffer → Type 0
HasBytes d = AreBytes d.id

abbrev pub HaveBytes : Option (List (Descriptor Buffer)) → Type 0
HaveBytes none = Unit
HaveBytes (some ds) = All HasBytes ds

descriptor-written :
    (d : Descriptor Buffer) → HasBytes d → descriptor (written d) ≡ some (without_unknown d)
unfolding descriptor
descriptor-written d h = ground (arith, from_base64_url-to_base64_url d.id h)

descriptor_list-written :
    (ds : List (Descriptor Buffer))
    → All HasBytes ds
    → descriptor_list (map written ds) ≡ some (map without_unknown ds)
unfolding descriptor_list
descriptor_list-written [] h = refl
descriptor_list-written (d ∷ ds) (p, h) =
    ground (arith, descriptor-written d p, descriptor_list-written ds h)

descriptors-written :
    (o : Option (List (Descriptor Buffer)))
    → HaveBytes o
    → descriptors (Option.map (map written) o) ≡ some (Option.map (map without_unknown) o)
unfolding descriptors
descriptors-written none h = refl
descriptors-written (some ds) h = ground (arith, descriptor_list-written ds h)

-- The transports that the Web Authentication standard names
abbrev pub IsTransport : String → Type 0
IsTransport t = In t ("usb" ∷ "nfc" ∷ "ble" ∷ "smart-card" ∷ "hybrid" ∷ "internal" ∷ [])

-- A list of transports, and those of it that the standard names, in order.
pub data Named : List String → List String → Type 0 where
  nothing : Named [] []
  named : (t : String) {ts us : List String} → IsTransport t → Named ts us → Named (t ∷ ts) (t ∷ us)
  strange :
      (t : String) {ts us : List String} → (IsTransport t → ⊥) → Named ts us → Named (t ∷ ts) us

-- The transports of a descriptor: a list is never empty, and is left out where nothing remains.
abbrev pub AreTransports : (said given : Option (List String)) → Type 0
AreTransports none given = given ≡ none
AreTransports (some ts) none = Named ts []
AreTransports (some ts) (some []) = ⊥
AreTransports (some ts) (some (u ∷ us)) = Named ts (u ∷ us)

abbrev pub IsGiven : (said given : Descriptor Buffer) → Type 0
IsGiven d e = (e.id ≡ d.id) × (e.kind ≡ d.kind) × AreTransports d.transports e.transports

abbrev pub AllGiven : (said given : List (Descriptor Buffer)) → Type 0
AllGiven [] [] = Unit
AllGiven (d ∷ ds) (e ∷ es) = IsGiven d e × AllGiven ds es
AllGiven _ _ = ⊥

abbrev pub AreGiven : (said given : Option (List (Descriptor Buffer))) → Type 0
AreGiven none none = Unit
AreGiven (some ds) (some es) = AllGiven ds es
AreGiven _ _ = ⊥

IsTransport-is_known_transport : (t : String) → is_known_transport t ≡ true → IsTransport t
unfolding is_known_transport
IsTransport-is_known_transport t h = ground (
  arith,
  eq_iff "usb" t,
  eq_iff "nfc" t,
  eq_iff "ble" t,
  eq_iff "hybrid" t,
  eq_iff "internal" t,
  eq_iff "smart-card" t,
)

is_known_transport-IsTransport : (t : String) → is_known_transport t ≡ false → IsTransport t → ⊥
unfolding is_known_transport
is_known_transport-IsTransport t h m = ground (
  arith,
  eq_iff "usb" t,
  eq_iff "nfc" t,
  eq_iff "ble" t,
  eq_iff "hybrid" t,
  eq_iff "internal" t,
  eq_iff "smart-card" t,
)

Named-keep : (ts : List String) → Named ts (keep is_known_transport ts)
Named-keep [] = nothing
Named-keep (t ∷ ts) = elim (Bool-cases (is_known_transport t)) [
  | inl h ↦ rw h (named t (IsTransport-is_known_transport t h) (Named-keep ts))
  | inr h ↦ rw h (strange t (is_known_transport-IsTransport t h) (Named-keep ts))
]

non_empty_named : (ts us : List String) → Named ts us → AreTransports (some ts) (non_empty_list us)
non_empty_named ts [] h = h
non_empty_named ts (u ∷ us) h = h

AreTransports-filtered_transports :
    (o : Option (List String)) → AreTransports o (filtered_transports o)
unfolding filtered_transports
AreTransports-filtered_transports none = refl
AreTransports-filtered_transports (some ts) =
    non_empty_named ts (keep is_known_transport ts) (Named-keep ts)

AllGiven-without_unknown : (ds : List (Descriptor Buffer)) → AllGiven ds (map without_unknown ds)
AllGiven-without_unknown [] = tt
AllGiven-without_unknown (d ∷ ds) =
    ((refl, refl, AreTransports-filtered_transports d.transports), AllGiven-without_unknown ds)

AreGiven-without_unknown :
    (o : Option (List (Descriptor Buffer))) → AreGiven o (Option.map (map without_unknown) o)
AreGiven-without_unknown none = tt
AreGiven-without_unknown (some ds) = AllGiven-without_unknown ds

module _ {Rest User : Type 0} where
  abbrev pub written_options : CreationOptions Buffer Rest User → CreationOptions Codes Rest User
  written_options o = record {
    challenge = to_base64_url o.challenge;
    user_id = to_base64_url o.user_id;
    user = o.user;
    exclude_credentials = Option.map (map written) o.exclude_credentials;
    rest = o.rest;
  }

  -- The browser is asked to create exactly what the server's options say: the challenge, the user and
  -- the ids of the credentials to leave out byte for byte, those credentials in their order, and all
  -- else verbatim, but for transports: exactly those that the standard names are passed on, in
  -- their order, and none of them is a list with nothing in it.
  pub to_creation_options-written :
      (o : CreationOptions Buffer Rest User)
      → AreBytes o.challenge
      → AreBytes o.user_id
      → HaveBytes o.exclude_credentials
      → (given : Option (List (Descriptor Buffer))) × (to_creation_options (written_options o)
          ≡ some (record o { exclude_credentials = given }))
        × AreGiven o.exclude_credentials given
  unfolding to_creation_options
  to_creation_options-written o p q r = (
    Option.map (map without_unknown) o.exclude_credentials,
    rw
        (
          from_base64_url-to_base64_url o.challenge p,
          from_base64_url-to_base64_url o.user_id q,
          descriptors-written o.exclude_credentials r,
        )
        refl,
    AreGiven-without_unknown o.exclude_credentials,
  )
