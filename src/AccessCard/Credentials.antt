-- ===== src/AccessCard/Credentials.antt =====
-- Which accounts show how to connect.
use vlessvmorectl.Base.{
  ℕ, String, ◌≡◌, ◌↔◌, refl, Bool, true, ◌&&◌, Option, none, some, List, [], ◌∷◌, ◌++◌, arith,
}
use vlessvmorectl.Format.{
  Count, TimeUnit, UserState, active, disabled, over_quota, expired, expiring, user_state,
}
use vlessvmorectl.QrMatrix.{Matrix}
use vlessvmorectl.Access.{
  AccessEntryOk, AccessEntryUnavailable, present, absent, entry_input, state_status, entry_status,
}
use vlessvmorectl.AccessCard.{shown_text, is_missing, secret_link, connection_of, entry_card}

shown_text_missing : (o : Option String) → is_missing o ≡ true → shown_text o ≡ none
shown_text_missing none e = refl
shown_text_missing (some s) e = ground arith

missing_shown_text : (o : Option String) → shown_text o ≡ none → is_missing o ≡ true
missing_shown_text none e = refl
missing_shown_text (some s) e = ground arith

secret_link_missing :
    (t : String) (o : Option String) (c : Option Matrix)
    → is_missing o ≡ true
    → secret_link t o c ≡ []
unfolding secret_link
secret_link_missing t none c e = refl
secret_link_missing t (some s) c e = ground arith

missing_secret_link :
    (t : String) (o : Option String) (c : Option Matrix)
    → secret_link t o c ≡ []
    → is_missing o ≡ true
unfolding secret_link
missing_secret_link t none c e = refl
missing_secret_link t (some s) c e = ground arith

append-nil-left : {A : Type 0} (xs ys : List A) → xs ++ ys ≡ [] → xs ≡ []
append-nil-left [] ys e = refl
append-nil-left (x ∷ xs) ys e = cc

append-nil-right : {A : Type 0} (xs ys : List A) → xs ++ ys ≡ [] → ys ≡ []
append-nil-right [] ys e = e
append-nil-right (x ∷ xs) ys e = cc

and_true : (a b c : Bool) → (a && b && c) ≡ true → (a ≡ true) × (b ≡ true) × (c ≡ true)
and_true a b c h = ground (arith, h)

connection_of-nothing_iff :
    (e : AccessEntryOk)
    → (connection_of e).nothing ≡ true
      ↔ ((connection_of e).set_up ≡ none) × ((connection_of e).secret_links ≡ [])
unfolding connection_of
connection_of-nothing_iff e = (
  λ h.
      let (a, b, c) =
        and_true (is_missing e.install_url) (is_missing e.subscription_url) (is_missing e.link) h in
      (
        shown_text_missing e.install_url a,
        rw (secret_link_missing "Subscription link" e.subscription_url e.subscription_qr b)
            (secret_link_missing "One-off vless:// link" e.link e.qr c),
      ),
  λ (u, l).
      let xs = secret_link "Subscription link" e.subscription_url e.subscription_qr in
      let ys = secret_link "One-off vless:// link" e.link e.qr in
      rw
        (
          missing_shown_text e.install_url u,
          missing_secret_link "Subscription link" e.subscription_url e.subscription_qr
              (append-nil-left xs ys l),
          missing_secret_link "One-off vless:// link" e.link e.qr (append-nil-right xs ys l),
        )
        refl,
)

state_status-usable : (s : UserState) → (state_status s).usable ≡ true
unfolding state_status
state_status-usable active = refl
state_status-usable (expiring label) = refl
state_status-usable expired = refl
state_status-usable over_quota = refl
state_status-usable disabled = refl

module _ (exponent : ℕ → ℕ) (format_date_time : String → String) (date_parse : String → Option ℕ)
    (rtf_format : Count → TimeUnit → String) (now : ℕ) where
  -- The card of an account that could not be confirmed shows no figures and nothing to connect with.
  -- That of any other, expired, switched off or over its quota included, shows how to connect,
  -- and it apologises exactly where it has neither a page to set up nor a link.
  pub entry_card-connection :
      (gone : AccessEntryUnavailable) (e : AccessEntryOk)
      → ((entry_card exponent format_date_time date_parse rtf_format now (absent gone)).figures
          ≡ none)
        × ((entry_card exponent format_date_time date_parse rtf_format now (absent gone)).connection
            ≡ none)
        × ((entry_card exponent format_date_time date_parse rtf_format now (present e)).connection
            ≡ some (connection_of e))
        × ((connection_of e).nothing ≡ true
            ↔ ((connection_of e).set_up ≡ none) × ((connection_of e).secret_links ≡ []))
  unfolding entry_card entry_status
  entry_card-connection gone e =
      let usable = state_status-usable (user_state date_parse rtf_format (entry_input e) now) in
      (refl, refl, rw usable refl, connection_of-nothing_iff e)
