-- ===== src/Ceremony/InFlight.antt =====
-- How many passkey ceremonies web/src/features/passkeys/webauthn.ts has in flight.
use vlessvmorectl.Base.{
  ℕ, ◌≤◌, ◌≡◌, refl, ◌⊎◌, inr, true, false, Option, none, some, List, [], ◌∷◌, ◌++◌, length, arith,
  subst,
}
use vlessvmorectl.Ceremony.{
  Kind, exclusive, stop, Waiting, Slot, idle, abort_pending, is_running, is_free, resume,
  settle_ceremony, finish, Reachable, initial, called, resumed, settled, finished,
}

-- No call waits.
abbrev pub IsQuiet : Slot → Type 0
IsQuiet s = s.waiting ≡ []

abbrev Within : List ℕ → Option ℕ → Type 0
Within running none = running ≡ []
Within running (some k) = (running ≡ []) ⊎ (running ≡ k ∷ [])

-- What runs is what is pending, or what the one call that waits has aborted.
abbrev IsSafe : Option ℕ → List ℕ → List Waiting → Type 0
IsSafe pending running [] = Within running pending
IsSafe pending running (c ∷ []) = (pending ≡ none) × Within running c.waits_for
IsSafe pending running (_ ∷ _ ∷ _) = ⊥

IsSafe-called :
    (kind : Kind) (pending : Option ℕ) (running : List ℕ) (waiting : List Waiting)
    → waiting ≡ []
    → IsSafe pending running waiting
    → IsSafe none running (waiting ++ record { kind = kind; waits_for = pending } ∷ [])
IsSafe-called kind pending running [] q h = (refl, h)
IsSafe-called kind pending running (c ∷ cs) q h = cc

Within-free :
    (w : Option ℕ) (running : List ℕ) → is_free w running ≡ true → Within running w → running ≡ []
unfolding is_free is_running
Within-free w running f h = ground arith

after_wait :
    (before after : List Waiting) (c : Waiting) (pending : Option ℕ) (running : List ℕ)
    → is_free c.waits_for running ≡ true
    → IsSafe pending running (before ++ c ∷ after)
    → (pending ≡ none) × (running ≡ []) × (before ++ after ≡ [])
after_wait [] [] c pending running f h = (h.0, Within-free c.waits_for running f h.1, refl)
after_wait [] (d ∷ after) c pending running f h = absurd h
after_wait (b ∷ []) after c pending running f h = absurd h
after_wait (b ∷ d ∷ before) after c pending running f h = absurd h

IsSafe-resumed :
    (kind : Kind) (s : Slot) (others : List Waiting)
    → s.pending ≡ none
    → s.running ≡ []
    → others ≡ []
    → IsSafe
        (resume kind others s).pending
        (resume kind others s).running
        (resume kind others s).waiting
unfolding resume
IsSafe-resumed kind s (c ∷ others) p r o = cc
IsSafe-resumed exclusive s [] p r o = inr (rw r refl)
IsSafe-resumed stop s [] p r o = rw p r

Within-settled :
    (k : ℕ) (w : Option ℕ) (s : Slot) → Within s.running w → Within (settle_ceremony k s).running w
unfolding settle_ceremony
Within-settled k w s h = ground arith

IsSafe-settled :
    (k : ℕ) (s : Slot) (cs : List Waiting)
    → IsSafe s.pending s.running cs
    → IsSafe s.pending (settle_ceremony k s).running cs
IsSafe-settled k s [] h = Within-settled k s.pending s h
IsSafe-settled k s (c ∷ []) h = (h.0, Within-settled k c.waits_for s h.1)
IsSafe-settled k s (c ∷ d ∷ cs) h = h

Within-finished :
    (k : ℕ) (s : Slot)
    → is_running k s.running ≡ false
    → Within s.running s.pending
    → Within s.running (finish k s).pending
unfolding finish is_running
Within-finished k s f h = ground arith

IsSafe-finished :
    (k : ℕ) (s : Slot) (cs : List Waiting)
    → is_running k s.running ≡ false
    → IsSafe s.pending s.running cs
    → IsSafe (finish k s).pending s.running cs
unfolding finish
IsSafe-finished k s [] f h = Within-finished k s f h
IsSafe-finished k s (c ∷ []) f h = (ground arith, h.1)
IsSafe-finished k s (c ∷ d ∷ cs) f h = h

Reachable-IsSafe : {s : Slot} → Reachable IsQuiet s → IsSafe s.pending s.running s.waiting
unfolding abort_pending resume settle_ceremony finish
Reachable-IsSafe initial = refl
Reachable-IsSafe (called {s} kind q r) =
    IsSafe-called kind s.pending s.running s.waiting q (Reachable-IsSafe r)
Reachable-IsSafe (resumed {s} before after c e f r) =
    let (p, n, o) =
      after_wait before after c s.pending s.running f
        (subst (λ ws. IsSafe s.pending s.running ws) e (Reachable-IsSafe r)) in
    IsSafe-resumed c.kind s (before ++ after) p n o
Reachable-IsSafe (settled {s} k r) = IsSafe-settled k s s.waiting (Reachable-IsSafe r)
Reachable-IsSafe (finished {s} k f r) = IsSafe-finished k s s.waiting f (Reachable-IsSafe r)

at_most_one :
    (pending : Option ℕ) (running : List ℕ) (waiting : List Waiting)
    → IsSafe pending running waiting
    → length running ≤ 1
at_most_one none running [] h = ground arith
at_most_one (some k) running [] h = ground arith
at_most_one pending running (c ∷ []) h = ground arith
at_most_one pending running (c ∷ d ∷ cs) h = absurd h

-- Where every call comes while no other one waits, at most one ceremony is in flight at any time.
pub orderly_calls-running : (s : Slot) → Reachable IsQuiet s → length s.running ≤ 1
orderly_calls-running s r = at_most_one s.pending s.running s.waiting (Reachable-IsSafe r)

abbrev unblocked : Waiting
unblocked = record { kind = exclusive; waits_for = none }

-- Two `exclusive` calls are made before either has started its ceremony.
abbrev overlapped : Slot
overlapped =
    resume exclusive []
      (resume exclusive (unblocked ∷ []) (abort_pending exclusive (abort_pending exclusive idle)))

overlapped-Reachable : Reachable (λ s. Unit) overlapped
unfolding abort_pending resume is_free
overlapped-Reachable = resumed [] [] unblocked refl refl (
    resumed [] (unblocked ∷ []) unblocked refl refl
      (called exclusive tt (called exclusive tt initial)))

-- Calls that overlap are not kept apart: a state with two ceremonies in flight can be reached.
pub overlapping_calls-running : ¬ ((s : Slot) → Reachable (λ s. Unit) s → length s.running ≤ 1)
unfolding abort_pending resume
overlapping_calls-running h =
    let bound : 2 ≤ 1 = h overlapped overlapped-Reachable in absurd (omega arith)
