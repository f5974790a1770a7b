-- ===== src/AccountForms/Tests.antt =====
-- A change of password that is typed, sent and accepted.
use vlessvmorectl.Base.{String, ◌≡◌, refl, false, none, List, [], ◌∷◌}
use vlessvmorectl.AccountForms.{
  PasswordForm, current, new, repeated, PasswordChange, fresh_form, PasswordEvent, typed, pressed,
  settled, password_run,
}

abbrev events : List (PasswordEvent String)
events =
    typed current "old secret"
    ∷ typed new "new secret"
    ∷ typed repeated "new secret"
    ∷ pressed
    ∷ settled none
    ∷ []

abbrev change : PasswordChange
change = record { current_password = "old secret"; new_password = "new secret" }

sent_once : (password_run events fresh_form).1 ≡ change ∷ []
unfolding password_run fresh_form
sent_once = refl

abbrev typed_form : PasswordForm String
typed_form = record {
  current_password = "old secret";
  new_password = "new secret";
  repeated_password = "new secret";
  done = false;
  change = record { is_pending = false; error = none };
}
