-- ===== src/ConditionalPasskey.antt =====
-- web/src/features/passkeys/useConditionalPasskey.ts: one run of the effect. `State` and `Options` are
-- what the server's first answer holds, `Credential` what the browser gives. The run waits at three
-- places, and `stop` and the cleanup of the effect can come at any of them. No ceremony of another
-- flow is outstanding, so the run's own starts as soon as it is asked for.
pub mod Stops
pub mod Late
mod Tests
use vlessvmorectl.Base.{
  Bool, true, false, not, ◌||◌, Option, none, some, List, [], ◌∷◌, ◌++◌, ◌≡◌, ◌⊎◌, inl, inr,
  if◌then◌else◌,
}
use vlessvmorectl.Passkeys.{
  Caught, PasskeyFailure, unsupported, cancelled, aborted, passkey_failure,
}

-- What the run waits for.
pub data Stage : Type 0 where
  checking beginning asserting finished : Stage

unfoldable pub is_asserting : Stage → Bool
is_asserting asserting = true
is_asserting _ = false

-- The failures of which nothing is said.
unfoldable pub is_silent : PasskeyFailure → Bool
is_silent aborted = true
is_silent cancelled = true
is_silent unsupported = true
is_silent _ = false

-- `reported` holds the calls of `onAssertion`; `ceremony_aborted` is that the run's ceremony was.
pub record EffectRun (State Credential : Type 0) : Type 0 where
  pub stage : Stage
  pub is_cancelled : Bool
  pub ceremony_aborted : Bool
  pub reported : List (State × Credential)
  pub failure : Option PasskeyFailure
  pub state : Option State

-- What an awaited promise comes to.
abbrev pub Awaited : Type 0 → Type 0
Awaited A = A ⊎ Caught

abbrev pub is_rejected : {A : Type 0} → Awaited A → Bool
is_rejected (inl a) = false
is_rejected (inr e) = true

module _ {State Credential : Type 0} where
  abbrev end_attempt : EffectRun State Credential → EffectRun State Credential
  end_attempt a = record a { stage = finished }

  -- The effect up to its first `await`.
  unfoldable pub start_attempt : (enabled supported : Bool) → EffectRun State Credential
  start_attempt enabled supported = record {
    stage = if not enabled || not supported then finished else checking;
    is_cancelled = false;
    ceremony_aborted = false;
    reported = [];
    failure = none;
    state = none;
  }

  -- The `catch` of the run.
  unfoldable pub on_caught :
      (supported : Bool) → Caught → EffectRun State Credential → EffectRun State Credential
  unfolding is_silent
  on_caught supported e a =
      if a.is_cancelled || is_silent (passkey_failure supported e)
      then end_attempt a
      else record a { stage = finished; failure = some (passkey_failure supported e) }

  -- After `conditionalMediationAvailable`
  unfoldable pub on_available : Bool → EffectRun State Credential → EffectRun State Credential
  on_available available a =
      if not available || a.is_cancelled then end_attempt a else record a { stage = beginning }

  -- After `postPasskeysLoginBegin`
  unfoldable pub on_begun :
      (supported : Bool) → Awaited State → EffectRun State Credential → EffectRun State Credential
  unfolding on_caught
  on_begun supported (inr e) a = on_caught supported e a
  on_begun supported (inl s) a =
      if a.is_cancelled then end_attempt a else record a { stage = asserting; state = some s }

  add_report : Option State → Credential → List (State × Credential) → List (State × Credential)
  add_report none credential reported = reported
  add_report (some s) credential reported = reported ++ (s, credential) ∷ []

  -- After `getPasskeyAssertion`
  unfoldable pub on_asserted :
      (supported : Bool)
      → Awaited Credential
      → EffectRun State Credential
      → EffectRun State Credential
  unfolding on_caught add_report
  on_asserted supported (inr e) a = on_caught supported e a
  on_asserted supported (inl credential) a =
      if a.is_cancelled
      then end_attempt a
      else record a { stage = finished; reported = add_report a.state credential a.reported }

  -- `abortPendingCeremony`: only a ceremony that has started can be aborted.
  unfoldable pub stop_attempt : EffectRun State Credential → EffectRun State Credential
  unfolding is_asserting
  stop_attempt a = record a { ceremony_aborted = a.ceremony_aborted || is_asserting a.stage }

  -- What the effect returns.
  unfoldable pub cleanup : EffectRun State Credential → EffectRun State Credential
  unfolding stop_attempt
  cleanup a = stop_attempt (record a { is_cancelled = true })

  -- What can come next. The browser rejects a ceremony that was aborted.
  pub data Step (supported : Bool)
      : EffectRun State Credential → EffectRun State Credential → Type 0 where
    checked :
        {a : EffectRun State Credential} (available : Bool)
        → a.stage ≡ checking
        → Step supported a (on_available available a)
    begun :
        {a : EffectRun State Credential} (answer : Awaited State)
        → a.stage ≡ beginning
        → Step supported a (on_begun supported answer a)
    asserted :
        {a : EffectRun State Credential} (answer : Awaited Credential)
        → a.stage ≡ asserting
        → (a.ceremony_aborted ≡ false) ⊎ (is_rejected answer ≡ true)
        → Step supported a (on_asserted supported answer a)
    stopped : {a : EffectRun State Credential} → Step supported a (stop_attempt a)
    cleaned : {a : EffectRun State Credential} → Step supported a (cleanup a)

  pub data Run (supported : Bool) (a : EffectRun State Credential)
      : EffectRun State Credential → Type 0 where
    here : Run supported a a
    next :
        {b c : EffectRun State Credential}
        → Run supported a b
        → Step supported b c
        → Run supported a c
