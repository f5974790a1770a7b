-- ===== src/Ceremony/Tests.antt =====
-- A passkey ceremony that runs, is superseded, and the theorem about it.
use vlessvmorectl.Base.{◌≤◌, ◌≡◌, refl, [], ◌∷◌, length}
use vlessvmorectl.Ceremony.{
  exclusive, idle, abort_pending, is_running, is_free, resume, settle_ceremony, Slot, Reachable,
  initial, called, resumed, settled,
}
use vlessvmorectl.Ceremony.InFlight.{IsQuiet, orderly_calls-running}

-- An `exclusive` call is made and starts; another one comes, and the browser lets go of the first.
abbrev superseded : Slot
superseded = resume exclusive [] (
    settle_ceremony 0
      (abort_pending exclusive (resume exclusive [] (abort_pending exclusive idle))))

superseded-Reachable : Reachable IsQuiet superseded
unfolding abort_pending resume settle_ceremony is_free is_running
superseded-Reachable =
    let first = resumed [] [] _ refl refl (called exclusive refl initial) in
    resumed [] [] _ refl refl (settled 0 (called exclusive refl first))

superseded_runs : superseded.running ≡ 1 ∷ []
unfolding abort_pending resume settle_ceremony
superseded_runs = refl

orderly_calls-running_example : length superseded.running ≤ 1
orderly_calls-running_example = orderly_calls-running superseded superseded-Reachable
