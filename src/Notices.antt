-- ===== src/Notices.antt =====
-- What the forms say of a request that was refused: web/src/routes/LoginPage.tsx,
-- web/src/routes/AccountPage.tsx and web/src/features/passkeys/PasskeysCard.tsx. `decimal` prints a
-- number.
pub mod Disclosure
mod Tests
use vlessvmorectl.Base.{
  ℕ, String, Bool, true, false, not, ◌&&◌, Option, none, some, ◌==◌, if◌then◌else◌,
}
use vlessvmorectl.Errors.{
  VlessFailure, unauthorized, server_error, forbidden, conflict, bad_request, not_found,
  describe_failure,
}
use vlessvmorectl.Passkeys.{
  Caught, vless_error, dom_exception, plain_error, thrown_value, PasskeyFailure, unsupported,
  cancelled, already_registered, misconfigured, aborted, unknown, passkey_failure,
}

-- What is shown of an answer with an error status, too many attempts apart
unfoldable pub status_message : ℕ → String → String
status_message status message =
    if status == 429 then "Too many attempts. Wait a minute and try again." else message

-- The `switch` of `loginMessage`; `text` is the message of the error.
unfoldable pub login_failure_message : (text : String) → VlessFailure → String
unfolding status_message
login_failure_message text (unauthorized _ _) = "Incorrect username or password."
login_failure_message text (server_error status message) = status_message status message
login_failure_message text _ = text

-- `error instanceof Error ? error.message : fallback` of what is no failure of a call
unfoldable pub other_message : (fallback : String) → Caught → String
other_message fallback (vless_error e) = e.message
other_message fallback (dom_exception name message) = message
other_message fallback (plain_error message) = message
other_message fallback (thrown_value text) = fallback

unfoldable pub login_message : Caught → String
unfolding login_failure_message other_message
login_message (vless_error e) = login_failure_message e.message e.failure
login_message e = other_message "Sign-in failed." e

unfoldable pub describe_passkey_failure : PasskeyFailure → String
describe_passkey_failure cancelled = "Cancelled, or your device took too long."
describe_passkey_failure misconfigured =
    "This panel's passkey origin does not match the address you are using. An operator needs to fix VLESSVMORE_PASSKEY_ORIGIN."
describe_passkey_failure already_registered = "That device already has a passkey for this panel."
describe_passkey_failure unsupported = "This browser cannot use passkeys."
describe_passkey_failure aborted = "That attempt was interrupted."
describe_passkey_failure (unknown message) = message

unfoldable pub passkey_refusal : (text : String) → VlessFailure → String
unfolding status_message
passkey_refusal text (unauthorized _ _) =
    "That passkey was not accepted. Try your password instead."
passkey_refusal text (server_error status message) = status_message status message
passkey_refusal text _ = text

unfoldable pub passkey_message : (supported : Bool) → Caught → String
unfolding passkey_refusal describe_passkey_failure
passkey_message supported (vless_error e) = passkey_refusal e.message e.failure
passkey_message supported e = describe_passkey_failure (passkey_failure supported e)

-- The one text that the login form shows of its three sources
unfoldable pub sign_in_message :
    (supported : Bool)
    → (login_error passkey_error : Option Caught) → (conditional : Option PasskeyFailure)
    → Option String
unfolding login_message passkey_message describe_passkey_failure
sign_in_message supported (some e) passkey_error conditional = some (login_message e)
sign_in_message supported none (some e) conditional = some (passkey_message supported e)
sign_in_message supported none none (some f) = some (describe_passkey_failure f)
sign_in_message supported none none none = none

-- Whether the login page offers passkeys
unfoldable pub offers_passkeys : (passkeys_enabled no_admins supported : Bool) → Bool
offers_passkeys passkeys_enabled no_admins supported =
    passkeys_enabled && not no_admins && supported

module _ (decimal : ℕ → String) where
  unfoldable pub account_failure_message : VlessFailure → String
  unfolding status_message
  account_failure_message (forbidden _) = "That is not your current password."
  account_failure_message (unauthorized _ _) = "Your session has expired. Reload and sign in again."
  account_failure_message (server_error status message) = status_message status message
  account_failure_message failure = describe_failure decimal failure

  unfoldable pub account_message : Caught → String
  unfolding account_failure_message other_message
  account_message (vless_error e) = account_failure_message e.failure
  account_message e = other_message "That did not work." e

  -- `message` of the passkeys card
  unfoldable pub card_failure_message : VlessFailure → String
  card_failure_message (not_found _) = "That passkey is already gone."
  card_failure_message failure = describe_failure decimal failure

  unfoldable pub card_message : Caught → String
  unfolding card_failure_message other_message
  card_message (vless_error e) = card_failure_message e.failure
  card_message e = other_message "That did not work." e

unfoldable pub register_refusal : (text : String) → VlessFailure → String
register_refusal text (conflict message) = message
register_refusal text (bad_request message) = message
register_refusal text (unauthorized _ _) = "Your session has expired. Reload and sign in again."
register_refusal text _ = text

unfoldable pub register_ceremony_message : PasskeyFailure → String
register_ceremony_message cancelled = "Cancelled, or your device took too long. Try again."
register_ceremony_message already_registered = "This device already has a passkey for this panel."
register_ceremony_message misconfigured =
    "This panel's passkey origin does not match the address you are using. An operator needs to fix VLESSVMORE_PASSKEY_ORIGIN."
register_ceremony_message unsupported = "This browser cannot create passkeys."
register_ceremony_message aborted = "That attempt was interrupted. Try again."
register_ceremony_message (unknown message) = message

unfoldable pub register_message : (supported : Bool) → Caught → String
unfolding register_refusal register_ceremony_message
register_message supported (vless_error e) = register_refusal e.message e.failure
register_message supported e = register_ceremony_message (passkey_failure supported e)
