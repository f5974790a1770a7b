-- ===== src/Notices/Disclosure.antt =====
-- What a refused sign-in tells of the reason.
use vlessvmorectl.Base.{ℕ, String, Bool, false, Option, none, some, ◌≡◌, refl, arith}
use vlessvmorectl.Json.{Json, readable}
use vlessvmorectl.Errors.{Response, is_marked, classify, unauthorized_of}
use vlessvmorectl.Dispatcher.{create}
use vlessvmorectl.Passkeys.{vless_error}
use vlessvmorectl.Notices.{login_failure_message, login_message, passkey_refusal, passkey_message}

module _ (parse_json : String → Option Json) (decimal : ℕ → String) (res : Response) where
  classify_rejected :
      is_marked res ≡ false
      → res.status ≡ 401
      → classify parse_json res ≡ unauthorized_of (readable (parse_json res.body))
  unfolding classify
  classify_rejected m s = ground arith

  login_rejected :
      (text : String) (body : Option Json)
      → login_failure_message text (unauthorized_of body) ≡ "Incorrect username or password."
  unfolding login_failure_message unauthorized_of
  login_rejected text none = refl
  login_rejected text (some v) = refl

  passkey_rejected :
      (text : String) (body : Option Json)
      → passkey_refusal text (unauthorized_of body)
        ≡ "That passkey was not accepted. Try your password instead."
  unfolding passkey_refusal unauthorized_of
  passkey_rejected text none = refl
  passkey_rejected text (some v) = refl

  -- A sign-in that the panel itself answers with 401 is told in one text, whatever the answer holds: the
  -- form does not say which part was wrong. So too for a passkey.
  rejected_sign_in :
      (supported : Bool)
      → is_marked res ≡ false
      → res.status ≡ 401
      → (login_message (vless_error (create decimal (classify parse_json res) none))
          ≡ "Incorrect username or password.")
        × (passkey_message supported (vless_error (create decimal (classify parse_json res) none))
            ≡ "That passkey was not accepted. Try your password instead.")
  unfolding login_message passkey_message create
  rejected_sign_in supported m s =
      let e = classify_rejected m s in
      (
        rw e (login_rejected _ (readable (parse_json res.body))),
        rw e (passkey_rejected _ (readable (parse_json res.body))),
      )
