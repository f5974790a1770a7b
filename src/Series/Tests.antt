-- ===== src/Series/Tests.antt =====
-- Runs of the chart series, and the theorems about them at a concrete range.
use vlessvmorectl.Base.{
  ℕ, ◌≡◌, ◌≢◌, String, refl, false, Option, none, some, List, [], ◌∷◌, map, arith, str_eq,
  if◌then◌else◌,
}
use vlessvmorectl.Types.{UsagePoint}
use vlessvmorectl.Range.{hour, SnappedRange}
use vlessvmorectl.Series.{FilledPoint, zero_fill, group_by_hours, peak_of}

-- A clock in units of one step: two texts that it reads.
abbrev parse_two : String → Option ℕ
parse_two s = if str_eq s "b" then some 20 else if str_eq s "d" then some 40 else none

abbrev range : SnappedRange
range = record { from_unix = 0; bucket = hour; step_ms = 10; from = 10; end = 40 }

abbrev series : List UsagePoint
series = record { bucket = "b"; up = 1; down = 2 } ∷ record { bucket = "d"; up = 3; down = 4 } ∷ []

abbrev point : ℕ → ℕ → FilledPoint
point t n = record { t = t; up = n; down = 0; total = n; partial = false; span = 1 }

filled_totals : map (λ p. p.total) (zero_fill parse_two series range) ≡ 0 ∷ 3 ∷ 0 ∷ 7 ∷ []
unfolding zero_fill
filled_totals = refl

b-ne-d : ◌≢◌ {A = Option ℕ} (some 40) (some 20)
b-ne-d h = ground arith

abbrev hour_of : ℕ → ℕ
hour_of t = t

abbrev points : List FilledPoint
points = point 3 5 ∷ point 4 1 ∷ point 5 9 ∷ []

columns : map (λ p. p.total) (group_by_hours hour_of points 2) ≡ 5 ∷ 10 ∷ []
unfolding group_by_hours
columns = refl

peak : peak_of points ≡ some (point 5 9)
unfolding peak_of
peak = refl
