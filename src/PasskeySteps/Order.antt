-- ===== src/PasskeySteps/Order.antt =====
-- The order of the steps of enrolling a passkey and of signing in with one.
use vlessvmorectl.Base.{String, ◌≡◌, refl, Bool, none, some, List, ◌∷◌, ◌⊎◌, inl, inr}
use vlessvmorectl.Passkeys.{Caught}
use vlessvmorectl.PasskeySteps.{
  CeremonyStep, begin_step, prompt_step, finish_step, Steps, ◌>>=◌, return, run_begin, run_prompt,
  run_finish, register_passkey, passkey_login,
}

module _ {Options Credential Prompted Done A : Type 0} (s : Steps Options Credential Prompted Done)
    (credential_of : Prompted → Credential) (pack : Prompted → Done → A)
    (made : List (CeremonyStep Options Credential)) where
  -- How three steps in a row end: at the first that is refused, or with what the last returns. The
  -- prompt has the options of the first answer, and the last request its state and the credential
  -- that was prompted for.
  pub data InOrder : List (CeremonyStep Options Credential) × (Caught ⊎ A) → Type 0 where
    refused_begin : (e : Caught) → s.on_begin ≡ inl e → InOrder (begin_step ∷ made, inl e)
    refused_prompt :
        (state : String) (options : Options) (e : Caught)
        → s.on_begin ≡ inr (state, options)
        → s.on_prompt options ≡ inl e
        → InOrder (prompt_step options ∷ begin_step ∷ made, inl e)
    refused_finish :
        (state : String) (options : Options) (p : Prompted) (e : Caught)
        → s.on_begin ≡ inr (state, options)
        → s.on_prompt options ≡ inr p
        → s.on_finish state (credential_of p) ≡ inl e
        → InOrder
            (finish_step state (credential_of p) ∷ prompt_step options ∷ begin_step ∷ made, inl e)
    completed :
        (state : String) (options : Options) (p : Prompted) (d : Done)
        → s.on_begin ≡ inr (state, options)
        → s.on_prompt options ≡ inr p
        → s.on_finish state (credential_of p) ≡ inr d
        → InOrder (
          finish_step state (credential_of p) ∷ prompt_step options ∷ begin_step ∷ made,
          inr (pack p d),
        )

-- Each answer of the three, with the equation that says it was given
abbrev Answer : {A B : Type 0} → A ⊎ B → Type 0
Answer {A} {B} x = ((a : A) × (x ≡ inl a)) ⊎ ((b : B) × (x ≡ inr b))

Answer-of : {A B : Type 0} (x : A ⊎ B) → Answer x
Answer-of (inl a) = inl (a, refl)
Answer-of (inr b) = inr (b, refl)

module _ {Options Credential : Type 0} (made : List (CeremonyStep Options Credential)) where
  -- Enrolling a passkey makes its three steps in order and stops at the first refusal, with that
  -- refusal; the last request carries the state of the first answer and the credential that the
  -- browser created for the options of that answer, and nothing is retried.
  pub register_passkey-InOrder :
      {Passkey : Type 0} (s : Steps Options Credential (Credential × Bool) Passkey)
      → InOrder s (λ p. p.0) (λ p d. (d, p.1)) made (register_passkey s made)
  unfolding register_passkey ◌>>=◌ return run_begin run_prompt run_finish
  register_passkey-InOrder s = elim (Answer-of s.on_begin) [
    | inl (e, b) ↦ simp b (refused_begin e b)
    | inr ((state, options), b) ↦ elim (Answer-of (s.on_prompt options)) [
      | inl (e, p) ↦ simp (b, p) (refused_prompt state options e b p)
      | inr (created, p) ↦ elim (Answer-of (s.on_finish state created.0)) [
        | inl (e, f) ↦ simp (b, p, f) (refused_finish state options created e b p f)
        | inr (passkey, f) ↦ simp (b, p, f) (completed state options created passkey b p f)
      ]
    ]
  ]

  -- Signing in with a passkey makes the same three steps in that order, and with a ceremony that is
  -- already completed one request and no prompt, with what was handed in.
  passkey_login-InOrder :
      {Session : Type 0} (s : Steps Options Credential Credential Session) (state : String)
      (credential : Credential)
      → InOrder s (λ c. c) (λ c d. d) made (passkey_login s none made)
        × (passkey_login s (some (state, credential)) made
            ≡ (finish_step state credential ∷ made, s.on_finish state credential))
  unfolding passkey_login ◌>>=◌ run_begin run_prompt run_finish
  passkey_login-InOrder s handed_state handed =
      let fresh : InOrder s (λ c. c) (λ c d. d) made (passkey_login s none made) =
        elim (Answer-of s.on_begin) [
          | inl (e, b) ↦ simp b (refused_begin e b)
          | inr ((state, options), b) ↦ elim (Answer-of (s.on_prompt options)) [
            | inl (e, p) ↦ simp (b, p) (refused_prompt state options e b p)
            | inr (asserted, p) ↦ elim (Answer-of (s.on_finish state asserted)) [
              | inl (e, f) ↦ simp (b, p, f) (refused_finish state options asserted e b p f)
              | inr (session, f) ↦ simp (b, p, f) (completed state options asserted session b p f)
            ]
          ]
        ] in
      (fresh, refl)
