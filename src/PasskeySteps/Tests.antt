-- ===== src/PasskeySteps/Tests.antt =====
-- An enrolment that the operator cancels, and a sign-in with a completed ceremony.
use vlessvmorectl.Base.{ℕ, String, ◌≡◌, refl, Bool, some, [], ◌∷◌, inl, inr}
use vlessvmorectl.Passkeys.{dom_exception}
use vlessvmorectl.PasskeySteps.{
  begin_step, prompt_step, finish_step, Steps, register_passkey, passkey_login,
}
use vlessvmorectl.PasskeySteps.Order.{InOrder, register_passkey-InOrder}

abbrev cancelled_prompt : Steps ℕ ℕ (ℕ × Bool) String
cancelled_prompt = record {
  on_begin = inr ("challenge", 7);
  on_prompt = λ options. inl (dom_exception "NotAllowedError" "The operation was cancelled");
  on_finish = λ state credential. inr "passkey";
}

abbrev signed_in : Steps ℕ ℕ ℕ String
signed_in = record {
  on_begin = inr ("challenge", 7);
  on_prompt = λ options. inr options;
  on_finish = λ state credential. inr "root";
}

two_steps : (register_passkey cancelled_prompt []).0 ≡ prompt_step 7 ∷ begin_step ∷ []
unfolding register_passkey
two_steps = refl

one_request :
    passkey_login signed_in (some ("held", 3)) [] ≡ (finish_step "held" 3 ∷ [], inr "root")
unfolding passkey_login
one_request = refl

register_passkey-InOrder_example :
    InOrder cancelled_prompt (λ p. p.0) (λ p d. (d, p.1)) [] (register_passkey cancelled_prompt [])
register_passkey-InOrder_example = register_passkey-InOrder [] cancelled_prompt
