-- ===== src/UsageChart/Tests.antt =====
-- A day of traffic as a table and as a chart.
use vlessvmorectl.Base.{
  ℕ, ◌+◌, ◌*◌, ◌≤◌, ◌^◌, ◌≡◌, ◌≢◌, ◌==◌, String, refl, Option, none, some, List, [], ◌∷◌, All, map,
  sum, arith, str_eq, if◌then◌else◌, ltb,
}
use vlessvmorectl.Types.{UsagePoint}
use vlessvmorectl.Range.{hour, SnappedRange}
use vlessvmorectl.Series.{FilledPoint, zero_fill, group_by_hours}
use vlessvmorectl.Series.Ticks.{byte_ticks}
use vlessvmorectl.Series.Ticks.Honest.{pow-positive}
use vlessvmorectl.UsageChart.{
  DateTexts, usage_columns, peak_total, top_of, usage_rows, bucket_label, span_of, day_edges,
}
use vlessvmorectl.UsageChart.Figures.{
  printed_row, printed_column, backwards, traffic-usage_columns, total-le-top_of,
}

abbrev english : DateTexts
english = record {
  local_day = λ t. "Sat 25";
  local_hour = λ t. "3 PM";
  utc_date = λ t. "Jul 25";
  medium_utc_date = λ t. "Jul 25, 2026";
  medium_local = λ t. "Jul 25, 2026, 3:00 PM";
  short_local_time = λ t. "7:00 PM";
}

abbrev read_bucket : String → Option ℕ
read_bucket s = if str_eq s "b" then some 20 else if str_eq s "d" then some 40 else none

abbrev two_days : SnappedRange
two_days = record { from_unix = 0; bucket = hour; step_ms = 10; from = 10; end = 40 }

abbrev answer : List UsagePoint
answer = record { bucket = "b"; up = 1; down = 2 } ∷ record { bucket = "d"; up = 3; down = 4 } ∷ []

abbrev of_hour : ℕ → ℕ
of_hour t = t

abbrev rounded : ℕ → ℕ
rounded n = if ltb n 1024 then 0 else 1

column_totals :
    map (λ p. p.total) (usage_columns read_bucket of_hour answer two_days 20) ≡ 0 ∷ 3 ∷ 7 ∷ []
unfolding usage_columns group_by_hours zero_fill
column_totals = refl

span_labels : bucket_label english 0 hour 4 ≡ "Jul 25, 2026, 3:00 PM – 7:00 PM"
unfolding bucket_label
span_labels = refl

no_datum : span_of (some []) ≡ 1
unfolding span_of
no_datum = refl

left_edges : day_edges (1 ∷ 2 ∷ []) (some (λ t. if t == 1 then none else some (6 * t))) ≡ 12 ∷ []
unfolding day_edges
left_edges = refl

some-20-ne-40 : ◌≢◌ {A = Option ℕ} (some 40) (some 20)
some-20-ne-40 h = ground arith

traffic-usage_columns_example :
    (map printed_row
        (usage_rows english rounded hour (usage_columns read_bucket of_hour answer two_days 20))
      ≡ map
          (printed_column rounded)
          (backwards (usage_columns read_bucket of_hour answer two_days 20)))
    × (sum (map (λ p. p.up + p.down) (usage_columns read_bucket of_hour answer two_days 20))
        ≡ sum (map (λ p. p.up + p.down) answer))
traffic-usage_columns_example =
    traffic-usage_columns read_bucket of_hour english rounded answer two_days 20 (omega arith)
      ((20, 1, refl, refl, (some-20-ne-40, tt)), ((40, 3, refl, refl, tt), tt))

abbrev zero_exponent : ℕ → ℕ
zero_exponent n = 0

zero_below : (j : ℕ) → 1024 ^ zero_exponent (2 ^ j) ≤ 2 ^ j
zero_below j = omega (arith, pow-positive j)

abbrev short_columns : List FilledPoint
unfolding usage_columns
short_columns = usage_columns read_bucket of_hour answer two_days 20

total-le-top_of_example :
    (ticks : List ℕ) × (byte_ticks zero_exponent 1 (peak_total short_columns) ≡ some ticks)
    × All (λ p. p.total ≤ top_of ticks) short_columns
total-le-top_of_example = total-le-top_of zero_exponent zero_below 1 short_columns
