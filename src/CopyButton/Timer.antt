-- ===== src/CopyButton/Timer.antt =====
-- How long the news of a copy stays.
use vlessvmorectl.Base.{
  ℕ, ◌+◌, ◌≤◌, ◌≡◌, refl, Option, none, some, List, [], ◌∷◌, inl, inr, arith, Bool-cases,
}
use vlessvmorectl.CopyButton.{
  CopyState, idle, copied, unavailable, Copier, set_copy_state, CopyEvent, no_clipboard, written,
  rejected, passed, copy_step, shown_ms, is_due,
}

-- There is a timer just while there is news, and it is due within its time.
abbrev Timed : (now : ℕ) → CopyState → Option ℕ → Type 0
Timed now idle none = Unit
Timed now idle (some t) = ⊥
Timed now copied none = ⊥
Timed now copied (some t) = t ≤ now + shown_ms
Timed now unavailable none = ⊥
Timed now unavailable (some t) = t ≤ now + shown_ms

abbrev IsTimed : (now : ℕ) → Copier → Type 0
IsTimed now c = Timed now c.state c.deadline

Timed-later :
    (now later : ℕ) (s : CopyState) (d : Option ℕ) → now ≤ later → Timed now s d → Timed later s d
Timed-later now later idle none l h = tt
Timed-later now later idle (some t) l h = h
Timed-later now later copied none l h = h
Timed-later now later copied (some t) l h = omega arith
Timed-later now later unavailable none l h = h
Timed-later now later unavailable (some t) l h = omega arith

set-IsTimed :
    (now : ℕ) (new s : CopyState) (d : Option ℕ)
    → Timed now s d
    → IsTimed now (set_copy_state now new (record { state = s; deadline = d }))
unfolding set_copy_state
set-IsTimed now idle idle d h = h
set-IsTimed now idle copied d h = tt
set-IsTimed now idle unavailable d h = tt
set-IsTimed now copied idle d h = omega arith
set-IsTimed now copied copied d h = h
set-IsTimed now copied unavailable d h = omega arith
set-IsTimed now unavailable idle d h = omega arith
set-IsTimed now unavailable copied d h = omega arith
set-IsTimed now unavailable unavailable d h = h

step-IsTimed :
    (now : ℕ) (e : CopyEvent) (c : Copier) → IsTimed now c → IsTimed now (copy_step now e c)
unfolding copy_step
step-IsTimed now no_clipboard c h = set-IsTimed now unavailable c.state c.deadline h
step-IsTimed now written c h = set-IsTimed now copied c.state c.deadline h
step-IsTimed now rejected c h = set-IsTimed now unavailable c.state c.deadline h
step-IsTimed now passed c h = elim (Bool-cases (is_due now c.deadline)) [
  | inl e ↦ rw e (set-IsTimed now idle c.state c.deadline h)
  | inr e ↦ rw e h
]

abbrev pub idle_copier : Copier
idle_copier = record { state = idle; deadline = none }

-- A run of events at their instants
pub copy_run : List (ℕ × CopyEvent) → Copier → Copier
copy_run [] c = c
copy_run ((t, e) ∷ es) c = copy_run es (copy_step t e c)

-- The instants are in order, from the first to the second.
abbrev pub InOrder : ℕ → List (ℕ × CopyEvent) → ℕ → Type 0
InOrder start [] now = start ≤ now
InOrder start ((t, e) ∷ es) now = (start ≤ t) × InOrder t es now

run-IsTimed :
    (es : List (ℕ × CopyEvent)) (start now : ℕ) (c : Copier)
    → InOrder start es now
    → IsTimed start c
    → IsTimed now (copy_run es c)
unfolding copy_run
run-IsTimed [] start now c o h = Timed-later start now c.state c.deadline o h
run-IsTimed ((t, e) ∷ es) start now c (p, o) h =
    run-IsTimed es t now (copy_step t e c) o
      (step-IsTimed t e c (Timed-later start t c.state c.deadline p h))

passed_idle :
    (now later : ℕ) (s : CopyState) (d : Option ℕ)
    → now + shown_ms ≤ later
    → Timed now s d
    → (copy_step later passed (record { state = s; deadline = d })).state ≡ idle
unfolding copy_step set_copy_state
passed_idle now later idle none l h = refl
passed_idle now later idle (some t) l h = absurd h
passed_idle now later copied none l h = absurd h
passed_idle now later copied (some t) l h = ground arith
passed_idle now later unavailable none l h = absurd h
passed_idle now later unavailable (some t) l h = ground arith

-- However often the button was pressed and whatever came of it, two and a half seconds after the last
-- event it has gone back to its own label.
idle_again :
    (es : List (ℕ × CopyEvent)) (now later : ℕ)
    → InOrder 0 es now
    → now + shown_ms ≤ later
    → (copy_step later passed (copy_run es idle_copier)).state ≡ idle
idle_again es now later o l =
    let c = copy_run es idle_copier in
    passed_idle now later c.state c.deadline l (run-IsTimed es 0 now idle_copier o tt)
