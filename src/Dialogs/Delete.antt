-- ===== src/Dialogs/Delete.antt =====
-- When a deletion is confirmed.
use vlessvmorectl.Base.{String, ◌≡◌, ◌≢◌, refl, true, false, ◌∙◌, List, [], ◌∷◌, All, eq_iff, arith}
use vlessvmorectl.Dialogs.{
  Deletion, DeletionEvent, rendered, typed, pressed, render_deletion, deletion_step, deletion_run,
}

-- Anything but typing
abbrev pub IsSilent : DeletionEvent → Type 0
IsSilent (typed text) = ⊥
IsSilent _ = Unit

step_silent :
    (name : String) (e : DeletionEvent) (s : Deletion)
    → name ≢ ""
    → IsSilent e
    → s.text ≡ ""
    → ((deletion_step name e s).text ≡ "") × ((deletion_step name e s).confirmed ≡ s.confirmed)
unfolding deletion_step
step_silent name (rendered is_open) s n q h = ground arith
step_silent name (typed text) s n q h = absurd q
step_silent name (pressed busy) s n q h = ground (arith, eq_iff s.text name)

run_silent :
    (name : String) (es : List DeletionEvent) (s : Deletion)
    → name ≢ ""
    → All IsSilent es
    → s.text ≡ ""
    → (deletion_run name es s).confirmed ≡ s.confirmed
unfolding deletion_run
run_silent name [] s n q h = refl
run_silent name (e ∷ es) s n (p, q) h =
    let (t, c) = step_silent name e s n p h in run_silent name es (deletion_step name e s) n q t ∙ c

-- Whatever was typed before, once the dialog is opened again nothing confirms the deletion until
-- something is typed: no press, and no closing and opening.
reopened_unconfirmed :
    (name : String) (es : List DeletionEvent) (s : Deletion)
    → name ≢ ""
    → s.is_open ≡ false
    → All IsSilent es
    → (deletion_run name (rendered true ∷ es) s).confirmed ≡ s.confirmed
unfolding deletion_run deletion_step render_deletion
reopened_unconfirmed name es s n o q =
    let t = deletion_step name (rendered true) s in
    run_silent name es t n q (ground arith) ∙ (ground arith)
