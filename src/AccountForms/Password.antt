-- ===== src/AccountForms/Password.antt =====
-- What the password form sends, and what it says.
use vlessvmorectl.Base.{
  true, false, not, ◌≡◌, ◌≢◌, refl, none, some, List, Bool-cases, ◌⊎◌, inl, inr, ◌||◌, ◌↔◌, [], ◌∷◌,
  eq_iff, arith,
}
use vlessvmorectl.AccountForms.{
  PasswordForm, current, new, repeated, PasswordChange, fresh_form, ready, submit_password, type_in,
  settle_password, PasswordEvent, typed, pressed, settled, password_step, password_run,
}

module _ {Error : Type 0} where
  -- Where the form says that it worked there is no error and nothing on its way.
  abbrev IsHonest : PasswordForm Error → Type 0
  IsHonest f = (f.done ≡ false) ⊎ ((f.change.error ≡ none) × (f.change.is_pending ≡ false))

  submit-IsHonest : (f : PasswordForm Error) → IsHonest f → IsHonest (submit_password f).0
  unfolding submit_password
  submit-IsHonest f h = elim (Bool-cases (f.change.is_pending || not (ready f))) [
    | inl e ↦ rw e h
    | inr e ↦ rw e (inl refl)
  ]

  step-IsHonest :
      (e : PasswordEvent Error) (f : PasswordForm Error)
      → IsHonest f
      → IsHonest (password_step e f).0
  unfolding password_step type_in settle_password
  step-IsHonest (typed current text) f h = h
  step-IsHonest (typed new text) f h = inl refl
  step-IsHonest (typed repeated text) f h = h
  step-IsHonest pressed f h = submit-IsHonest f h
  step-IsHonest (settled none) f h = ground arith
  step-IsHonest (settled (some x)) f h = ground arith

  run-IsHonest :
      (es : List (PasswordEvent Error)) (f : PasswordForm Error)
      → IsHonest f
      → IsHonest (password_run es f).0
  unfolding password_run
  run-IsHonest [] f h = h
  run-IsHonest (e ∷ es) f h = run-IsHonest es (password_step e f).0 (step-IsHonest e f h)

  worked_only :
      (f : PasswordForm Error)
      → IsHonest f
      → f.done ≡ true
      → (f.change.error ≡ none) × (f.change.is_pending ≡ false)
  worked_only f h d = ground arith

  -- After any run of events on a fresh form, a form that counts as done has no error and no request on
  -- its way: news of a success never stands beside a failure.
  done-password_run :
      (es : List (PasswordEvent Error))
      → (password_run es fresh_form).0.done ≡ true
      → ((password_run es fresh_form).0.change.error ≡ none)
        × ((password_run es fresh_form).0.change.is_pending ≡ false)
  unfolding fresh_form
  done-password_run es d =
      worked_only (password_run es fresh_form).0 (run-IsHonest es fresh_form (inl refl)) d

  -- A press of the button sends a change exactly when no request is on its way, neither password is
  -- empty and the repeated one is the new one, and then it sends the two that were typed.
  submit_password-sent_iff :
      (f : PasswordForm Error) (c : PasswordChange)
      → ((submit_password f).1 ≡ some c) ↔ (
          (f.change.is_pending ≡ false)
          × (f.current_password ≢ "")
          × (f.new_password ≢ "")
          × (f.new_password ≡ f.repeated_password)
          × (c ≡ record { current_password = f.current_password; new_password = f.new_password }))
  unfolding submit_password ready
  submit_password-sent_iff f c = (
    λ h. (
      ground arith,
      λ e. ground (arith, eq_iff f.current_password ""),
      λ e. ground (arith, eq_iff f.new_password ""),
      ground (arith, eq_iff f.new_password f.repeated_password),
      ground arith,
    ),
    λ (p, q, r, s, t). ground (
      arith,
      eq_iff f.current_password "",
      eq_iff f.new_password "",
      eq_iff f.new_password f.repeated_password,
    ),
  )
