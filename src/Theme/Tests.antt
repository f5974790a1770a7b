-- ===== src/Theme/Tests.antt =====
-- A page toggled once in a browser that stores, and in one that does not.
use vlessvmorectl.Base.{◌≡◌, refl, true, false, none, some}
use vlessvmorectl.Theme.{
  dark, Browser, system_theme, open_page, toggle_times, applied_theme, initial_theme,
}
use vlessvmorectl.Theme.Kept.{open_page-toggle_times}

abbrev fresh_browser : Browser
fresh_browser = record {
  can_store = true;
  stored = none;
  prefers_light = some false;
  data_theme = some "dark";
}

abbrev private_window : Browser
private_window = record {
  can_store = false;
  stored = none;
  prefers_light = none;
  data_theme = none;
}

toggled_once : (toggle_times 1 (open_page fresh_browser)).1.stored ≡ some "light"
unfolding toggle_times open_page
toggled_once = refl

foreign_word : initial_theme (record fresh_browser { stored = some "sepia" }) ≡ dark
unfolding initial_theme
foreign_word = refl

open_page-toggle_times_example :
    (applied_theme (toggle_times 1 (open_page private_window)).1
      ≡ (toggle_times 1 (open_page private_window)).0)
    × (false ≡ true
        → (open_page (toggle_times 1 (open_page private_window)).1).0
          ≡ (toggle_times 1 (open_page private_window)).0)
    × (false ≡ false
        → (open_page (toggle_times 1 (open_page private_window)).1).0 ≡ system_theme private_window)
open_page-toggle_times_example = open_page-toggle_times 1 private_window
