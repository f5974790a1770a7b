-- ===== src/ConditionalPasskey/Tests.antt =====
-- Runs of the effect that are stopped at each of its waits.
use vlessvmorectl.Base.{ℕ, ◌≡◌, refl, inl, inr, true, false, none, some, [], ◌∷◌}
use vlessvmorectl.Passkeys.{dom_exception}
use vlessvmorectl.ConditionalPasskey.{
  EffectRun, beginning, asserting, start_attempt, on_available, on_begun, on_asserted, stop_attempt,
  cleanup, Run, here, next, begun,
}
use vlessvmorectl.ConditionalPasskey.Stops.{cleanup_silences}
use vlessvmorectl.ConditionalPasskey.Late.{stop-beginning}

abbrev at_stage : EffectRun ℕ ℕ
unfolding start_attempt on_available
at_stage = on_available true (start_attempt true true)

abbrev at_challenge : EffectRun ℕ ℕ
at_challenge = record {
  stage = beginning;
  is_cancelled = false;
  ceremony_aborted = false;
  reported = [];
  failure = none;
  state = none;
}

abbrev at_prompt : EffectRun ℕ ℕ
at_prompt = record at_challenge { stage = asserting; state = some 7 }

reaches_challenge : at_stage ≡ at_challenge
unfolding start_attempt on_available
reaches_challenge = refl

reports : (on_asserted true (inl 9) at_prompt).reported ≡ (7, 9) ∷ []
unfolding on_asserted
reports = refl

abbrev unmounted : EffectRun ℕ ℕ
unfolding cleanup on_begun
unmounted = on_begun true (inl 7) (cleanup at_challenge)

cleanup_silences_example : (unmounted.reported ≡ []) × (unmounted.failure ≡ none)
unfolding cleanup on_begun
cleanup_silences_example =
    cleanup_silences true at_challenge unmounted (next here (begun (inl 7) refl))

abbrev superseded : EffectRun ℕ ℕ
unfolding stop_attempt on_asserted
superseded =
    on_asserted true (inr (dom_exception "AbortError" "superseded")) (stop_attempt at_prompt)

stop-beginning_example :
    (b : EffectRun ℕ ℕ) × Run true (stop_attempt at_challenge) b × (b.reported ≡ (7, 9) ∷ [])
stop-beginning_example = stop-beginning true at_challenge 7 9 refl refl refl
