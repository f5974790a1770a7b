-- ===== src/UserDrawer/Expiry.antt =====
-- What the buttons of the drawer ask the node for, and when they can be pressed.
use vlessvmorectl.Base.{
  String, ◌≡◌, ◌≢◌, refl, true, false, not, Option, none, some, [], ◌∷◌, str_eq, eq_iff, arith,
}
use vlessvmorectl.Types.{VlessUser}
use vlessvmorectl.Patch.{null, text, flag, ok, patch_body, enabled_patch}
use vlessvmorectl.UserDrawer.{
  toggle_patch, current_day, set_disabled, never_disabled, expiry_patch, set_expiry, never_expire,
}

module _ {Date : Type 0} (to_iso_string : Date → Option String) (midnight : String → Date)
    (first_ten : String → String) where
  -- The body of each button has one key and no more: Enable or Disable the other state, Never expire
  -- a null, and Set the midnight of the day that was typed.
  patch_body-buttons :
      (user : VlessUser) (day iso : String)
      → to_iso_string (midnight day) ≡ some iso
      → (patch_body to_iso_string (toggle_patch user)
          ≡ ok (("enabled", flag (not user.enabled)) ∷ []))
        × (patch_body to_iso_string never_expire ≡ ok (("expires_at", null) ∷ []))
        × (patch_body to_iso_string (set_expiry midnight day) ≡ ok (("expires_at", text iso) ∷ []))
  unfolding patch_body toggle_patch enabled_patch never_expire set_expiry expiry_patch
  patch_body-buttons user day iso e = (refl, refl, rw e refl)

  -- Where the day of a midnight's text is the day that was typed, as dates are printed: once the node
  -- has stored what Set asked for, Set cannot be pressed again and Never expire can, and once it
  -- has cleared the expiry it is the other way round for every day that was typed.
  set_disabled-stored :
      (day iso : String)
      → to_iso_string (midnight day) ≡ some iso
      → first_ten iso ≡ day
      → day ≢ ""
      → iso ≢ ""
      → (set_disabled first_ten false day (some iso) ≡ true)
        × (never_disabled false (some iso) ≡ false)
        × (set_disabled first_ten false day none ≡ false)
        × (never_disabled false none ≡ true)
  unfolding set_disabled never_disabled current_day
  set_disabled-stored day iso e d n m =
      let full : str_eq day "" ≡ false = ground (arith, eq_iff day "", n) in
      let there : str_eq iso "" ≡ false = ground (arith, eq_iff iso "", m) in
      let same : str_eq day day ≡ true = (eq_iff day day).1 refl in
      (rw (there, d, full, same) refl, rw there refl, rw full refl, refl)
