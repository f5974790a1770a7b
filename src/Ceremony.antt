-- ===== src/Ceremony.antt =====
-- web/src/features/passkeys/webauthn.ts: the one slot for a passkey ceremony. `exclusive` and
-- `abortPendingCeremony` are calls that wait; the browser settles ceremonies in between. A ceremony
-- is known by the number of its controller.
pub mod InFlight
mod Tests
use vlessvmorectl.Base.{
  ℕ, ◌+◌, Bool, true, false, not, Option, none, some, List, [], ◌∷◌, ◌++◌, any, keep, ◌==◌, ◌≡◌,
  if◌then◌else◌,
}

-- What a call does once the ceremony that it aborted has settled: `exclusive` runs its own, and
-- `abortPendingCeremony` returns.
pub data Kind : Type 0 where
  exclusive stop : Kind

-- A call at its `await`, with the ceremony that it waits for, where there was one.
pub record Waiting : Type 0 where
  pub kind : Kind
  pub waits_for : Option ℕ

-- `running` holds the ceremonies that the browser has not settled.
pub record Slot : Type 0 where
  pub pending : Option ℕ
  pub running : List ℕ
  pub waiting : List Waiting
  pub fresh : ℕ

abbrev pub idle : Slot
idle = record { pending = none; running = []; waiting = []; fresh = 0 }

-- `abortPendingCeremony` up to its `await`: takes what is pending, and leaves nothing.
unfoldable pub abort_pending : Kind → Slot → Slot
abort_pending kind s = record s {
  pending = none;
  waiting = s.waiting ++ record { kind = kind; waits_for = s.pending } ∷ [];
}

unfoldable pub is_running : ℕ → List ℕ → Bool
is_running k running = any (λ j. j == k) running

-- Whether what is awaited has settled.
unfoldable pub is_free : Option ℕ → List ℕ → Bool
unfolding is_running
is_free none running = true
is_free (some k) running = not (is_running k running)

-- The rest of the call after the `await`, with the calls that still wait.
unfoldable pub resume : Kind → List Waiting → Slot → Slot
resume stop others s = record s { waiting = others }
resume exclusive others s = record s {
  pending = some s.fresh;
  running = s.running ++ s.fresh ∷ [];
  waiting = others;
  fresh = s.fresh + 1;
}

-- The browser settles a ceremony.
unfoldable pub settle_ceremony : ℕ → Slot → Slot
settle_ceremony k s = record s { running = keep (λ j. not (j == k)) s.running }

-- The `finally` of `exclusive`.
unfoldable pub finish : ℕ → Slot → Slot
finish k s = record s {
  pending = elim s.pending [ none ↦ none | some j ↦ if j == k then none else some j ];
}

-- The states that calls reach which come at states that `Allowed` admits.
pub data Reachable (Allowed : Slot → Type 0) : Slot → Type 0 where
  initial : Reachable Allowed idle
  called :
      {s : Slot} (kind : Kind)
      → Allowed s
      → Reachable Allowed s
      → Reachable Allowed (abort_pending kind s)
  resumed :
      {s : Slot} (before after : List Waiting) (c : Waiting)
      → s.waiting ≡ before ++ c ∷ after
      → is_free c.waits_for s.running ≡ true
      → Reachable Allowed s
      → Reachable Allowed (resume c.kind (before ++ after) s)
  settled : {s : Slot} (k : ℕ) → Reachable Allowed s → Reachable Allowed (settle_ceremony k s)
  finished :
      {s : Slot} (k : ℕ)
      → is_running k s.running ≡ false
      → Reachable Allowed s
      → Reachable Allowed (finish k s)
