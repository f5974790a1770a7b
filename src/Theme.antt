-- ===== src/Theme.antt =====
-- web/src/lib/theme.ts: the theme of a page and what the browser keeps of it. The storage and the media
-- query belong to the browser: what they hold, and whether the storage throws, is its state here.
pub mod Kept
mod Tests
use vlessvmorectl.Base.{
  ℕ, zero, suc, String, Bool, true, false, Option, none, some, str_eq, if◌then◌else◌,
}

pub data Theme : Type 0 where
  dark light : Theme

abbrev pub theme_word : Theme → String
theme_word dark = "dark"
theme_word light = "light"

-- `data_theme` is the attribute of the document; `prefers_light` is `none` without `matchMedia`.
pub record Browser : Type 0 where
  pub can_store : Bool
  pub stored : Option String
  pub prefers_light : Option Bool
  pub data_theme : Option String

-- `v === "dark" || v === "light" ? v : null`
unfoldable pub theme_of_word : Option String → Option Theme
theme_of_word none = none
theme_of_word (some v) =
    if str_eq v "dark" then some dark else if str_eq v "light" then some light else none

unfoldable pub read_stored : Browser → Option Theme
unfolding theme_of_word
read_stored b = if b.can_store then theme_of_word b.stored else none

unfoldable pub system_theme : Browser → Theme
system_theme b = elim b.prefers_light [
  | none ↦ dark
  | some is_light ↦ if is_light then light else dark
]

unfoldable pub apply_theme : Theme → Browser → Browser
apply_theme theme b = record b { data_theme = some (theme_word theme) }

unfoldable pub initial_theme : Browser → Theme
unfolding read_stored system_theme
initial_theme b = elim (read_stored b) [ none ↦ system_theme b | some theme ↦ theme ]

-- `localStorage.setItem`, or nothing where it throws
unfoldable pub keep_theme : Theme → Browser → Browser
keep_theme theme b = if b.can_store then record b { stored = some (theme_word theme) } else b

-- The effect of `useTheme` after a render with that theme
unfoldable pub theme_effect : Theme → Browser → Browser
unfolding apply_theme keep_theme
theme_effect theme b = keep_theme theme (apply_theme theme b)

abbrev pub toggled : Theme → Theme
toggled dark = light
toggled light = dark

-- A page with its theme: opened (`main.tsx` and `access.tsx` apply the theme before the first render,
-- whose effect follows), and after a press of the toggle with the render that it brings.
unfoldable pub open_page : Browser → Theme × Browser
unfolding initial_theme theme_effect apply_theme
open_page b = (initial_theme b, theme_effect (initial_theme b) (apply_theme (initial_theme b) b))

unfoldable pub toggle_theme : Theme × Browser → Theme × Browser
unfolding theme_effect
toggle_theme (theme, b) = (toggled theme, theme_effect (toggled theme) b)

unfoldable pub toggle_times : ℕ → Theme × Browser → Theme × Browser
unfolding toggle_theme
toggle_times zero page = page
toggle_times (suc n) page = toggle_theme (toggle_times n page)

-- `applied`, which `useAppliedTheme` reads
unfoldable pub applied_theme : Browser → Theme
applied_theme b = elim b.data_theme [
  | none ↦ dark
  | some v ↦ if str_eq v "light" then light else dark
]
