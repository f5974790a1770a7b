-- ===== src/Notices/Tests.antt =====
-- Texts of some refusals.
use vlessvmorectl.Base.{ℕ, String, ◌≡◌, refl, true, none}
use vlessvmorectl.Errors.{forbidden, server_error}
use vlessvmorectl.Dispatcher.{create}
use vlessvmorectl.Passkeys.{vless_error, dom_exception, passkey_failure}
use vlessvmorectl.Notices.{login_message, register_message, account_message}

abbrev decimal : ℕ → String
decimal n = "429"

too_many :
    login_message (vless_error (create decimal (server_error 429 "slow down") none))
    ≡ "Too many attempts. Wait a minute and try again."
unfolding login_message create
too_many = refl

wrong_password :
    account_message decimal (vless_error (create decimal (forbidden "no") none))
    ≡ "That is not your current password."
unfolding account_message create
wrong_password = refl

already_there :
    register_message true (dom_exception "InvalidStateError" "")
    ≡ "This device already has a passkey for this panel."
unfolding register_message passkey_failure
already_there = refl
