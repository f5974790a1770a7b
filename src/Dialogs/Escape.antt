-- ===== src/Dialogs/Escape.antt =====
-- Which dialog an Escape closes.
use vlessvmorectl.Base.{
  ℕ, ◌≡◌, ap, ◌∙◌, refl, false, some, List, [], ◌∷◌, keep, any, ◌==◌, All, arith, if◌then◌else◌,
}
use vlessvmorectl.Dialogs.{last_open, is_dialog, on_key_down, closed_by_key}

-- No dialog is met twice on the way.
abbrev pub IsDistinct : List ℕ → Type 0
IsDistinct [] = Unit
IsDistinct (d ∷ ds) = All (λ e. (d == e) ≡ false) ds × IsDistinct ds

keep_none :
    (d : ℕ) (path : List ℕ) → All (λ e. (d == e) ≡ false) path → keep (λ e. d == e) path ≡ []
keep_none d [] h = refl
keep_none d (e ∷ path) (p, h) = rw p (keep_none d path h)

keep_one :
    (d : ℕ) (path : List ℕ)
    → IsDistinct path
    → keep (λ e. d == e) path ≡ (if any (λ e. d == e) path then d ∷ [] else [])
keep_one d [] h = refl
keep_one d (e ∷ path) (p, h) = ground (arith, keep_one d path h, keep_none e path p)

-- However dialogs are nested, an Escape closes one of them, the innermost that is open, where the focus
-- is inside it, and none otherwise.
closed_by_key-Escape :
    (open_dialogs path : List ℕ) (d : ℕ)
    → IsDistinct path
    → last_open open_dialogs ≡ some d
    → closed_by_key "Escape" open_dialogs path ≡ (if any (λ e. d == e) path then d ∷ [] else [])
unfolding closed_by_key on_key_down
closed_by_key-Escape open_dialogs path d h e =
    ap (λ o. keep (λ x. is_dialog o x) path) e ∙ keep_one d path h
