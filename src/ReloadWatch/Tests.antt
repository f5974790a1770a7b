-- ===== src/ReloadWatch/Tests.antt =====
-- The reload watch at a concrete store.
use vlessvmorectl.Base.{ℕ, String, ◌≡◌, refl, true, Option, none, some, [], ◌∷◌}
use vlessvmorectl.ReloadWatch.{ReloadProblem, ReloadWatch, use_reload_problem}

abbrev problem : ReloadProblem
problem = record { marked_at = 5; error = "exit status 1" }

abbrev watch : ReloadWatch
watch = record { problems = ("nl", problem) ∷ []; listeners = 7 ∷ [] }

abbrev parse_nine : String → Option ℕ
parse_nine s = some 9

superseded : use_reload_problem parse_nine watch "nl" (some "later") ≡ (none, true)
unfolding use_reload_problem
superseded = refl
