-- ===== src/Access/Tests.antt =====
-- An expiring account on the share page.
use vlessvmorectl.Base.{ℕ, String, ◌≡◌, refl, true, Option, none, some}
use vlessvmorectl.Format.{Count, TimeUnit, user_state}
use vlessvmorectl.Access.{AccessEntryOk, present, warn, entry_status}

abbrev soon : String → Option ℕ
soon iso = some 5_000

abbrev in_words : Count → TimeUnit → String
in_words n unit = "soon"

abbrev shared : AccessEntryOk
shared = record {
  id = "e1";
  server_label = "nl";
  label = some "phone";
  name = none;
  enabled = true;
  disabled_reason = none;
  expires_at = some "then";
  quota_bytes = 0;
  link = none;
  subscription_url = none;
  install_url = none;
  usage = none;
  qr = none;
  subscription_qr = none;
}

expiring_soon : (entry_status soon in_words (present shared) 0).tone ≡ warn
unfolding entry_status user_state
expiring_soon = refl
