-- ===== src/PasskeySteps.antt =====
-- web/src/queries/hooks.ts: useRegisterPasskey and usePasskeyLogin, whose mutations take several steps. A
-- step is a request to the panel or a prompt of the browser; what each comes to belongs to them. The
-- mutations are state passing over the list of the steps made so far, newest first.
pub mod Order
mod Tests
use vlessvmorectl.Base.{String, Bool, Option, none, some, List, [], ◌∷◌, ◌⊎◌, inl, inr}
use vlessvmorectl.Passkeys.{Caught}

-- `Options` are those of the browser's ceremony.
pub data CeremonyStep (Options Credential : Type 0) : Type 0 where
  begin_step : CeremonyStep Options Credential
  prompt_step : Options → CeremonyStep Options Credential
  finish_step : (state : String) → Credential → CeremonyStep Options Credential

-- What the panel and the browser answer to the steps; `Done` is what the last request returns.
pub record Steps (Options Credential Prompted Done : Type 0) : Type 0 where
  pub on_begin : Caught ⊎ (String × Options)
  pub on_prompt : Options → Caught ⊎ Prompted
  pub on_finish : String → Credential → Caught ⊎ Done

abbrev pub Run : (Options Credential A : Type 0) → Type 0
Run Options Credential A =
    List (CeremonyStep Options Credential) → List (CeremonyStep Options Credential) × (Caught ⊎ A)

infixl 5 ◌>>=◌
module _ {Options Credential : Type 0} where
  -- `await`, then the rest: an error ends the mutation.
  unfoldable pub ◌>>=◌ :
      {A B : Type 0}
      → Run Options Credential A
      → (A → Run Options Credential B)
      → Run Options Credential B
  ◌>>=◌ step rest made = elim (step made).1 [
    | inl e ↦ ((step made).0, inl e)
    | inr a ↦ rest a (step made).0
  ]

  unfoldable pub return : {A : Type 0} → A → Run Options Credential A
  return a made = (made, inr a)

  module _ {Prompted Done : Type 0} (s : Steps Options Credential Prompted Done) where
    unfoldable pub run_begin : Run Options Credential (String × Options)
    run_begin made = (begin_step ∷ made, s.on_begin)

    unfoldable pub run_prompt : Options → Run Options Credential Prompted
    run_prompt options made = (prompt_step options ∷ made, s.on_prompt options)

    unfoldable pub run_finish : String → Credential → Run Options Credential Done
    run_finish state credential made =
        (finish_step state credential ∷ made, s.on_finish state credential)

  -- The mutation of `useRegisterPasskey`
  unfoldable pub register_passkey :
      {Passkey : Type 0}
      → Steps Options Credential (Credential × Bool) Passkey
      → Run Options Credential (Passkey × Bool)
  unfolding ◌>>=◌ return run_begin run_prompt run_finish
  register_passkey s = do
    (state, options) ← run_begin s
    (credential, discoverable) ← run_prompt s options
    passkey ← run_finish s state credential
    return (passkey, discoverable)

  -- The mutation of `usePasskeyLogin`; `vars` is a ceremony that is already completed.
  unfoldable pub passkey_login :
      {Session : Type 0}
      → Steps Options Credential Credential Session
      → (vars : Option (String × Credential)) → Run Options Credential Session
  unfolding ◌>>=◌ run_begin run_prompt run_finish
  passkey_login s (some (state, credential)) = run_finish s state credential
  passkey_login s none = do
    (state, options) ← run_begin s
    credential ← run_prompt s options
    run_finish s state credential
