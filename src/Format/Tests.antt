-- ===== src/Format/Tests.antt =====
-- Runs of the classifiers, and the theorems about them at concrete users.
use vlessvmorectl.Base.{ℕ, ◌*◌, ◌≡◌, String, refl, true, Option, none, some, str_eq, if◌then◌else◌}
use vlessvmorectl.Format.{
  TimeUnit, day, Count, ahead, expired, expiring, UserStateInput, user_state, format_relative,
  day_ms, units, pick_unit,
}
use vlessvmorectl.Format.Status.{stage}

-- A clock that reads one text, ten days after 1970.
abbrev parse_one : String → Option ℕ
parse_one s = if str_eq s "1970-01-11" then some (10 * day_ms) else none

abbrev print : Count → TimeUnit → String
print c u = "soon"

abbrev user : UserStateInput
user = record { enabled = true; disabled_reason = none; expires_at = some "1970-01-11" }

stages :
    (stage (user_state parse_one print user 0) ≡ 0)
    × (user_state parse_one print user (5 * day_ms) ≡ expiring "Expires soon")
    × (user_state parse_one print user (10 * day_ms) ≡ expired)
unfolding user_state format_relative
stages = (refl, refl, refl)

three_days : pick_unit (3 * day_ms) 0 units ≡ some (day, ahead 3)
unfolding pick_unit
three_days = refl
