-- ===== src/AccessCard/Tests.antt =====
-- The cards of an account over its quota and of one that was not confirmed.
use vlessvmorectl.Base.{ℕ, String, ◌≡◌, ◌↔◌, refl, true, false, Option, none, some, []}
use vlessvmorectl.Types.{quota}
use vlessvmorectl.Format.{Count, TimeUnit}
use vlessvmorectl.Access.{AccessEntryOk, AccessEntryUnavailable, present, absent, unavailable}
use vlessvmorectl.AccessCard.{connection_of, entry_card, figures_of}
use vlessvmorectl.AccessCard.Credentials.{entry_card-connection}

abbrev laptop : AccessEntryOk
laptop = record {
  id = "e1";
  server_label = "Amsterdam";
  label = some "laptop";
  name = none;
  enabled = false;
  disabled_reason = some quota;
  expires_at = none;
  quota_bytes = 10;
  usage = some (record { window_up = 4; window_down = 16; window_total = 20; quota_remaining = 0 });
  link = some "vless://x";
  subscription_url = none;
  install_url = none;
  qr = none;
  subscription_qr = none;
}

abbrev phone : AccessEntryUnavailable
phone = record { id = "e2"; server_label = "Berlin"; label = none; reason = unavailable }

abbrev no_exponent : ℕ → ℕ
no_exponent n = 0

abbrev plain_time : String → String
plain_time iso = iso

abbrev no_date : String → Option ℕ
no_date s = none

abbrev no_words : Count → TimeUnit → String
no_words n unit = ""

full_meter : (figures_of no_exponent plain_time laptop).meter ≡ some (10, 10)
unfolding figures_of
full_meter = refl

entry_card-connection_example :
    ((entry_card no_exponent plain_time no_date no_words 0 (absent phone)).figures ≡ none)
    × ((entry_card no_exponent plain_time no_date no_words 0 (absent phone)).connection ≡ none)
    × ((entry_card no_exponent plain_time no_date no_words 0 (present laptop)).connection
        ≡ some (connection_of laptop))
    × ((connection_of laptop).nothing ≡ true
        ↔ ((connection_of laptop).set_up ≡ none) × ((connection_of laptop).secret_links ≡ []))
entry_card-connection_example =
    entry_card-connection no_exponent plain_time no_date no_words 0 phone laptop
