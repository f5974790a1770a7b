-- ===== src/ConditionalPasskey/Stops.antt =====
-- What a run of web/src/features/passkeys/useConditionalPasskey.ts does after it was stopped.
use vlessvmorectl.Base.{Bool, true, ◌≡◌, refl, ◌⊎◌, inl, inr, arith}
use vlessvmorectl.ConditionalPasskey.{
  Stage, asserting, finished, EffectRun, on_available, on_begun, on_asserted, stop_attempt, cleanup,
  Step, checked, begun, asserted, stopped, cleaned, Run, here, next,
}

-- The run has asked the browser for a passkey.
abbrev IsAsserted : Stage → Type 0
IsAsserted s = (s ≡ asserting) ⊎ (s ≡ finished)

module _ {State Credential : Type 0} where
  -- Nothing has been said since, and nothing will be.
  abbrev IsSilenced : EffectRun State Credential → EffectRun State Credential → Type 0
  IsSilenced a b = (b.is_cancelled ≡ true) × (b.reported ≡ a.reported) × (b.failure ≡ a.failure)

  Step-IsSilenced :
      {supported : Bool} (a : EffectRun State Credential) {b c : EffectRun State Credential}
      → Step supported b c
      → IsSilenced a b
      → IsSilenced a c
  unfolding on_available on_begun on_asserted stop_attempt cleanup
  Step-IsSilenced a (checked available e) h = ground arith
  Step-IsSilenced a (begun (inl s) e) h = ground arith
  Step-IsSilenced a (begun (inr s) e) h = ground arith
  Step-IsSilenced a (asserted (inl s) e f) h = ground arith
  Step-IsSilenced a (asserted (inr s) e f) h = ground arith
  Step-IsSilenced a stopped h = h
  Step-IsSilenced a cleaned h = (refl, h.1, h.2)

  Run-IsSilenced :
      {supported : Bool} (a : EffectRun State Credential) {b : EffectRun State Credential}
      → Run supported (cleanup a) b
      → IsSilenced a b
  unfolding cleanup stop_attempt
  Run-IsSilenced a here = (refl, refl, refl)
  Run-IsSilenced a (next r s) = Step-IsSilenced a s (Run-IsSilenced a r)

  -- After the cleanup of the effect its run reports no assertion and shows no failure, wherever it was
  -- and whatever its requests come to.
  pub cleanup_silences :
      (supported : Bool) (a b : EffectRun State Credential)
      → Run supported (cleanup a) b
      → (b.reported ≡ a.reported) × (b.failure ≡ a.failure)
  cleanup_silences supported a b r = let (c, p, q) = Run-IsSilenced a r in (p, q)

  abbrev IsAborted : EffectRun State Credential → EffectRun State Credential → Type 0
  IsAborted a b = IsAsserted b.stage × (b.ceremony_aborted ≡ true) × (b.reported ≡ a.reported)

  Step-IsAborted :
      {supported : Bool} (a : EffectRun State Credential) {b c : EffectRun State Credential}
      → Step supported b c
      → IsAborted a b
      → IsAborted a c
  unfolding on_available on_begun on_asserted stop_attempt cleanup
  Step-IsAborted a (checked available e) h = ground arith
  Step-IsAborted a (begun (inl s) e) h = ground arith
  Step-IsAborted a (begun (inr s) e) h = ground arith
  Step-IsAborted a (asserted (inl s) e f) h = ground arith
  Step-IsAborted a (asserted (inr s) e f) h = ground arith
  Step-IsAborted a stopped h = ground arith
  Step-IsAborted a cleaned h = ground arith

  Run-IsAborted :
      {supported : Bool} (a : EffectRun State Credential) {b : EffectRun State Credential}
      → a.stage ≡ asserting
      → Run supported (stop_attempt a) b
      → IsAborted a b
  unfolding stop_attempt
  Run-IsAborted a e here = ground arith
  Run-IsAborted a e (next r s) = Step-IsAborted a s (Run-IsAborted a e r)

  -- A stop that comes while the browser asks for the passkey keeps the run from ever reporting one.
  stop-asserting :
      (supported : Bool) (a b : EffectRun State Credential)
      → a.stage ≡ asserting
      → Run supported (stop_attempt a) b
      → b.reported ≡ a.reported
  stop-asserting supported a b e r = (Run-IsAborted a e r).2
