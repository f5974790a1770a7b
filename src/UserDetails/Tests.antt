-- ===== src/UserDetails/Tests.antt =====
-- A user with a quota of 1.5 GB, whose form is opened, and who gets a note.
use vlessvmorectl.Base.{
  ℕ, ◌^◌, ◌%◌, String, ◌≡◌, refl, true, false, Option, none, some, ltb, ◌==◌, trim, or_default,
  lookup, if◌then◌else◌,
}
use vlessvmorectl.Types.{VlessUser}
use vlessvmorectl.Patch.{Body, ok, text, number, patch_body}
use vlessvmorectl.Bytes.{codes, parse_bytes, format_bytes}
use vlessvmorectl.Bytes.RoundTrip.{unit_size, shown_size}
use vlessvmorectl.UserDetails.{Form, initial_quota, initial_form, dirty, save, save_disabled}
use vlessvmorectl.UserDetails.Save.{IsAsked, patch_body-save}
use vlessvmorectl.UserDetails.Quota.{save_untouched_quota}

abbrev exponent : ℕ → ℕ
exponent n = if ltb n (1024 ^ 3) then 2 else 3

abbrev alice : VlessUser
alice = record {
  id = "u1";
  name = "alice";
  uuid = "";
  enabled = true;
  quota_bytes = 1_610_612_736;
  expires_at = none;
  usage_reset_at = "";
  disabled_reason = none;
  sub_token = none;
  note = none;
  created_at = "";
  updated_at = "";
  usage = none;
  subscription_url = none;
  install_url = none;
}

abbrev with_note : Form
with_note = record { name = "alice "; note = "phone"; quota = codes "2 GB" }

abbrev no_date : ℕ → Option String
no_date n = none

untouched_but_dirty : dirty alice (initial_form exponent alice) ≡ true
unfolding dirty initial_form trim parse_bytes format_bytes
untouched_but_dirty = refl

quota_is_shown : initial_quota exponent alice ≡ codes "2 GB"
unfolding initial_quota format_bytes
quota_is_shown = refl

enabled : save_disabled alice with_note false ≡ false
unfolding save_disabled trim parse_bytes
enabled = refl

patch_body-save_example :
    (body : Body) × (n : ℕ) × (patch_body no_date (save alice with_note) ≡ ok body)
    × (parse_bytes with_note.quota ≡ some n)
    × IsAsked (lookup "name" body) text (trim with_note.name) alice.name
    × IsAsked (lookup "note" body) text (trim with_note.note) (or_default alice.note "")
    × IsAsked (lookup "quota_bytes" body) number n alice.quota_bytes
    × (lookup "uuid" body ≡ none)
    × (lookup "enabled" body ≡ none)
    × (lookup "expires_at" body ≡ none)
patch_body-save_example = patch_body-save no_date alice with_note false enabled

quota_untouched : with_note.quota ≡ initial_quota exponent alice
unfolding initial_quota format_bytes
quota_untouched = refl

save_untouched_quota_example : (save alice with_note {Date = ℕ}).quota_bytes ≡ (
    if alice.quota_bytes % unit_size exponent alice.quota_bytes == 0
    then none
    else some (shown_size exponent alice.quota_bytes))
save_untouched_quota_example = save_untouched_quota ℕ exponent alice with_note quota_untouched

trimmed_name : trim alice.name ≡ alice.name
unfolding trim
trimmed_name = refl

trimmed_note : trim (or_default alice.note "") ≡ or_default alice.note ""
unfolding trim
trimmed_note = refl
