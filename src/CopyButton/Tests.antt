-- ===== src/CopyButton/Tests.antt =====
-- A press that is followed by another.
use vlessvmorectl.Base.{ℕ, ◌≡◌, refl, none, some, List, [], ◌∷◌}
use vlessvmorectl.CopyButton.{cx, CopyEvent, written, rejected}

classes : cx (some "p-2" ∷ none ∷ some "" ∷ some "text-xs" ∷ []) ≡ "p-2 text-xs"
unfolding cx
classes = refl

abbrev presses : List (ℕ × CopyEvent)
presses = (100, written) ∷ (900, written) ∷ (1200, rejected) ∷ []
