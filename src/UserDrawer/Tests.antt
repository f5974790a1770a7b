-- ===== src/UserDrawer/Tests.antt =====
-- The drawer of a user with a quota, and an expiry that is set.
use vlessvmorectl.Base.{◌≡◌, refl, true, none, some, [], ◌∷◌, map}
use vlessvmorectl.Types.{VlessUser}
use vlessvmorectl.Format.{expiring}
use vlessvmorectl.UserDrawer.{
  warn, state_tone, can_reset, secrets, connection_step, opened_connection, press_rotate,
  confirm_rotation, rotation_done,
}
use vlessvmorectl.UserDrawer.Connection.{connection_run}

abbrev bob : VlessUser
bob = record {
  id = "u1";
  name = "bob";
  uuid = "0000";
  enabled = true;
  quota_bytes = 1024;
  expires_at = none;
  usage_reset_at = "2026-07-01T00:00:00Z";
  disabled_reason = none;
  sub_token = none;
  note = none;
  created_at = "2026-07-01T00:00:00Z";
  updated_at = "2026-07-01T00:00:00Z";
  usage = none;
  subscription_url = none;
  install_url = none;
}

has_reset : can_reset bob ≡ true
unfolding can_reset
has_reset = refl

tone_of_expiring : state_tone (expiring "Expires tomorrow") ≡ warn
unfolding state_tone
tone_of_expiring = refl

only_the_link :
    map
      (λ s. s.label)
      (secrets (record {
        link = "vless://x";
        qr = none;
        subscription_url = some "";
        subscription_qr = none;
        install_url = some "https://nl/i/x";
      }))
    ≡ "vless:// link" ∷ "Install page" ∷ []
unfolding secrets
only_the_link = refl

rotated_once :
    (connection_run
      (press_rotate ∷ confirm_rotation ∷ rotation_done ∷ [])
      opened_connection).rotated
    ≡ true
unfolding connection_step
rotated_once = refl
