-- ===== src/ConditionalPasskey/Late.antt =====
-- A stop of web/src/features/passkeys/useConditionalPasskey.ts that comes too early.
use vlessvmorectl.Base.{Bool, false, [], ◌∷◌, ◌++◌, ◌≡◌, inl, arith}
use vlessvmorectl.ConditionalPasskey.{
  beginning, EffectRun, on_begun, on_asserted, stop_attempt, Run, here, next, begun, asserted,
}

module _ {State Credential : Type 0} where
  -- A stop that comes while the run waits for the server's challenge stops nothing: where the run's
  -- effect is still in place, there is a way for it to go on, start its ceremony after the stop and
  -- report whichever passkey is picked.
  pub stop-beginning :
      (supported : Bool) (a : EffectRun State Credential) (s : State) (credential : Credential)
      → a.stage ≡ beginning
      → a.is_cancelled ≡ false
      → a.ceremony_aborted ≡ false
      → (b : EffectRun State Credential) × Run supported (stop_attempt a) b
        × (b.reported ≡ a.reported ++ (s, credential) ∷ [])
  unfolding stop_attempt on_begun on_asserted
  stop-beginning supported a s credential e c f =
      let asking = on_begun supported (inl s) (stop_attempt a) in
      (
        on_asserted supported (inl credential) asking,
        next (next here (begun (inl s) (ground arith)))
            (asserted (inl credential) (ground arith) (inl (ground arith))),
        ground arith,
      )
