-- ===== src/Dialogs/Tests.antt =====
-- A confirmation over a drawer, and a deletion.
use vlessvmorectl.Base.{String, ◌≡◌, ◌≢◌, refl, true, false, [], ◌∷◌, arith, eq_iff}
use vlessvmorectl.Dialogs.{Deletion, rendered, typed, pressed, deletion_run}

abbrev left_open : Deletion
left_open = record { is_open = false; text = "alice"; confirmed = 0 }

confirmed_once :
    (deletion_run "alice" (rendered true ∷ typed "alice" ∷ pressed false ∷ []) left_open).confirmed
    ≡ 1
unfolding deletion_run
confirmed_once = refl

alice-ne-empty : ◌≢◌ {A = String} "alice" ""
alice-ne-empty h = ground (arith, eq_iff "alice" "")
