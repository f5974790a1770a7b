-- ===== src/Theme/Kept.antt =====
-- What a page's theme is elsewhere: in the components that read it, and on the next visit.
use vlessvmorectl.Base.{ℕ, zero, suc, ◌≡◌, refl, true, false, Bool-cases, inl, inr, ◌∙◌}
use vlessvmorectl.Theme.{
  Theme, dark, light, Browser, theme_of_word, read_stored, system_theme, apply_theme, initial_theme,
  keep_theme, theme_effect, toggled, open_page, toggle_theme, toggle_times, applied_theme,
}

applied_theme-theme_effect :
    (theme : Theme) (b : Browser) → applied_theme (theme_effect theme b) ≡ theme
unfolding applied_theme theme_effect keep_theme apply_theme
applied_theme-theme_effect dark b = elim (Bool-cases b.can_store) [
  | inl e ↦ rw e refl
  | inr e ↦ rw e refl
]
applied_theme-theme_effect light b = elim (Bool-cases b.can_store) [
  | inl e ↦ rw e refl
  | inr e ↦ rw e refl
]

can_store-theme_effect :
    (theme : Theme) (b : Browser) → (theme_effect theme b).can_store ≡ b.can_store
unfolding theme_effect keep_theme apply_theme
can_store-theme_effect theme b = elim (Bool-cases b.can_store) [
  | inl e ↦ rw e refl
  | inr e ↦ rw e refl
]

prefers-theme_effect :
    (theme : Theme) (b : Browser) → (theme_effect theme b).prefers_light ≡ b.prefers_light
unfolding theme_effect keep_theme apply_theme
prefers-theme_effect theme b = elim (Bool-cases b.can_store) [
  | inl e ↦ rw e refl
  | inr e ↦ rw e refl
]

initial_theme-theme_effect :
    (theme : Theme) (b : Browser)
    → b.can_store ≡ true
    → initial_theme (theme_effect theme b) ≡ theme
unfolding initial_theme read_stored theme_of_word theme_effect keep_theme apply_theme
initial_theme-theme_effect dark b e = rw e refl
initial_theme-theme_effect light b e = rw e refl

-- What holds of a page that began in the browser `b`.
abbrev IsKept : Browser → Theme × Browser → Type 0
IsKept b (theme, now) =
    (applied_theme now ≡ theme)
    × (now.can_store ≡ b.can_store)
    × (now.prefers_light ≡ b.prefers_light)
    × (b.can_store ≡ true → initial_theme now ≡ theme)

effect-IsKept :
    (b now : Browser) (theme : Theme)
    → now.can_store ≡ b.can_store
    → now.prefers_light ≡ b.prefers_light
    → IsKept b (theme, theme_effect theme now)
effect-IsKept b now theme c p = (
  applied_theme-theme_effect theme now,
  can_store-theme_effect theme now ∙ c,
  prefers-theme_effect theme now ∙ p,
  λ h. initial_theme-theme_effect theme now (c ∙ h),
)

toggle_times-IsKept : (n : ℕ) (b : Browser) → IsKept b (toggle_times n (open_page b))
unfolding toggle_times toggle_theme open_page apply_theme
toggle_times-IsKept zero b =
    effect-IsKept b (apply_theme (initial_theme b) b) (initial_theme b) refl refl
toggle_times-IsKept (suc n) b =
    let page = toggle_times n (open_page b) in
    let (a, c, p, k) = toggle_times-IsKept n b in effect-IsKept b page.1 (toggled page.0) c p

initial_theme-unkept :
    (now b : Browser)
    → b.can_store ≡ false
    → now.can_store ≡ b.can_store
    → now.prefers_light ≡ b.prefers_light
    → initial_theme now ≡ system_theme b
unfolding initial_theme read_stored system_theme
initial_theme-unkept now b e c p = rw (c, e, p) refl

-- However often the theme of a page is toggled, the components that read the document see the theme
-- that the page holds. The next visit starts with it where the browser can store, and with the one of
-- the system where its storage throws.
pub open_page-toggle_times :
    (n : ℕ) (b : Browser)
    → (applied_theme (toggle_times n (open_page b)).1 ≡ (toggle_times n (open_page b)).0)
      × (b.can_store ≡ true
          → (open_page (toggle_times n (open_page b)).1).0 ≡ (toggle_times n (open_page b)).0)
      × (b.can_store ≡ false → (open_page (toggle_times n (open_page b)).1).0 ≡ system_theme b)
unfolding open_page
open_page-toggle_times n b =
    let (a, c, p, k) = toggle_times-IsKept n b in
    (a, k, λ e. initial_theme-unkept (toggle_times n (open_page b)).1 b e c p)
