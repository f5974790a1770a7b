-- ===== src/Passkeys.antt =====
-- web/src/features/passkeys/webauthn.ts: what went wrong in a ceremony. A thrown value is a failure of
-- a call, a DOMException with its name and message, another error with its message, or any other
-- value with its text.
mod Tests
use vlessvmorectl.Base.{String, Bool, true, false, ◌&&◌, not, str_eq, if◌then◌else◌}
use vlessvmorectl.Dispatcher.{VlessError}

pub data Caught : Type 0 where
  vless_error : VlessError → Caught
  dom_exception : (name message : String) → Caught
  plain_error : (message : String) → Caught
  thrown_value : (text : String) → Caught

pub data PasskeyFailure : Type 0 where
  unsupported cancelled already_registered misconfigured aborted : PasskeyFailure
  unknown : (message : String) → PasskeyFailure

-- The parts of the platform that `passkeysSupported` asks for.
pub record Platform : Type 0 where
  pub has_window : Bool
  pub has_public_key_credential : Bool
  pub has_create : Bool
  pub has_get : Bool

unfoldable pub passkeys_supported : Platform → Bool
passkeys_supported p = p.has_window && p.has_public_key_credential && p.has_create && p.has_get

-- `e instanceof Error ? e.message : String(e)`; a DOMException is an Error.
unfoldable pub text_of_caught : Caught → String
text_of_caught (vless_error e) = e.message
text_of_caught (dom_exception name message) = message
text_of_caught (plain_error message) = message
text_of_caught (thrown_value text) = text

-- The `switch` on the name of a DOMException
unfoldable pub dom_failure : (name message : String) → PasskeyFailure
dom_failure name message =
    if str_eq name "AbortError"
    then aborted
    else if str_eq name "NotAllowedError"
    then cancelled
    else if str_eq name "InvalidStateError"
    then already_registered
    else if str_eq name "SecurityError"
    then misconfigured
    else unknown message

unfoldable pub caught_failure : Caught → PasskeyFailure
unfolding dom_failure text_of_caught
caught_failure (dom_exception name message) = dom_failure name message
caught_failure e = unknown (text_of_caught e)

unfoldable pub passkey_failure : (supported : Bool) → Caught → PasskeyFailure
unfolding caught_failure
passkey_failure supported e = if supported then caught_failure e else unsupported
