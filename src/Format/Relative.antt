-- ===== src/Format/Relative.antt =====
-- The unit and the count that `formatRelative` of web/src/lib/format.ts chooses.
use vlessvmorectl.Base.{ℕ, ◌+◌, ◌*◌, ◌≤◌, ◌<◌, ◌≡◌, ◌↔◌, none, some, arith}
use vlessvmorectl.Format.{
  TimeUnit, year, month, day, hour, minute, Count, ahead, ago, day_ms, units, gap, round_units,
  pick_unit,
}

-- The milliseconds of a unit.
abbrev pub span : TimeUnit → ℕ
span year = 365 * day_ms
span month = 30 * day_ms
span day = day_ms
span hour = 3_600_000
span minute = 60_000

abbrev pub magnitude : Count → ℕ
magnitude (ahead n) = n
magnitude (ago n) = n

-- A chosen unit fits into the gap at least once, and the count times the unit is the gap to within
-- half a unit.
pub pick_unit_near :
    (at now : ℕ) (unit : TimeUnit) (c : Count)
    → pick_unit at now units ≡ some (unit, c)
    → (span unit ≤ gap at now)
      × (1 ≤ magnitude c)
      × (2 * (magnitude c * span unit) ≤ 2 * gap at now + span unit)
      × (2 * gap at now ≤ 2 * (magnitude c * span unit) + span unit)
unfolding pick_unit round_units
pick_unit_near at now unit c h = ground arith

-- "just now" is said exactly when the gap is under a minute.
pub pick_unit-none_iff : (at now : ℕ) → (pick_unit at now units ≡ none) ↔ (gap at now < 60_000)
unfolding pick_unit
pick_unit-none_iff at now = (λ h. ground arith, λ h. ground arith)
