-- ===== src/Passkeys/Tests.antt =====
-- What became of a ceremony in some runs.
use vlessvmorectl.Base.{◌≡◌, refl, true, false}
use vlessvmorectl.Passkeys.{
  dom_exception, plain_error, unsupported, cancelled, unknown, passkey_failure,
}

dismissed : passkey_failure true (dom_exception "NotAllowedError" "timed out") ≡ cancelled
unfolding passkey_failure
dismissed = refl

other_error : passkey_failure true (plain_error "boom") ≡ unknown "boom"
unfolding passkey_failure
other_error = refl

no_passkeys : passkey_failure false (plain_error "boom") ≡ unsupported
unfolding passkey_failure
no_passkeys = refl
