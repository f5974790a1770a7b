-- ===== src/PasskeysCard/Tests.antt =====
-- A card with one passkey that was never named.
use vlessvmorectl.Base.{◌≡◌, refl, true, false, none, some}
use vlessvmorectl.Theme.{dark}
use vlessvmorectl.PasskeysCard.{Passkey, display_name, logo_shown, caption, CardState}

abbrev bitwarden : Passkey
bitwarden = record {
  id = "p1";
  label = "";
  algorithm = "ES256";
  provider = some "Bitwarden";
  aaguid = none;
  logo = some "/logos/bitwarden.svg";
  logo_dark = none;
  synced = true;
  created_at = "2026-07-01T00:00:00Z";
  last_used_at = none;
}

one_logo : logo_shown dark bitwarden false ≡ some "/logos/bitwarden.svg"
unfolding logo_shown
one_logo = refl

plain_caption : caption (λ t. "Jul 1") (λ t. "today") bitwarden ≡ "ES256 · added Jul 1 · never used"
unfolding caption display_name
plain_caption = refl

abbrev new_card : CardState
new_card = record { pending_delete = none; not_discoverable = false }
