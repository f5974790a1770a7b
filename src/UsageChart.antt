-- ===== src/UsageChart.antt =====
-- web/src/features/usage/UsageChart.tsx and the part of web/src/features/users/UserDrawer.tsx that
-- feeds it: the columns of a chart, its axes, and the table with the same numbers. What the platform
-- prints for an instant and where the chart library puts a column are parameters.
pub mod Figures
mod Tests
use Prim.Native.String.{◌++◌}
use vlessvmorectl.Base.{
  ℕ, ◌+◌, ◌*◌, max, String, Bool, true, false, ◌&&◌, Option, none, some, List, [], ◌∷◌, map, any,
  ltb, leb, length, if◌then◌else◌,
}
use vlessvmorectl.Types.{UsagePoint}
use vlessvmorectl.Range.{Bucket, hour, day, hour_ms, SnappedRange}
use vlessvmorectl.Series.{FilledPoint, zero_fill, group_by_hours, day_boundaries}
use vlessvmorectl.Bytes.{Codes, format_bytes}

-- What the platform prints for an instant: `formatLocalDay`, `formatLocalHour`, `formatUTCDate`, and the
-- three texts that `bucketLabel` asks for.
pub record DateTexts : Type 0 where
  pub local_day : ℕ → String
  pub local_hour : ℕ → String
  pub utc_date : ℕ → String
  pub medium_utc_date : ℕ → String
  pub medium_local : ℕ → String
  pub short_local_time : ℕ → String

-- The columns of the `UsageBody` of a user's drawer
unfoldable pub usage_columns :
    (date_parse : String → Option ℕ) (get_hours : ℕ → ℕ)
    → List UsagePoint
    → SnappedRange
    → (group : ℕ) → List FilledPoint
usage_columns date_parse get_hours series range group =
    group_by_hours get_hours (zero_fill date_parse series range) group

-- `days` of the chart
unfoldable pub chart_days : (local_day : ℕ → String) → List FilledPoint → Bucket → List ℕ
chart_days local_day points hour = day_boundaries local_day points
chart_days local_day points day = []

unfoldable pub is_by_day : List ℕ → Bool
is_by_day days = leb 2 (length days)

unfoldable pub axis_text : DateTexts → (by_day : Bool) → Bucket → ℕ → String
axis_text texts true bucket t = texts.local_day t
axis_text texts false hour t = texts.local_hour t
axis_text texts false day t = texts.utc_date t

-- `Math.max(...points.map((p) => p.total), 0)`
unfoldable pub peak_total : List FilledPoint → ℕ
peak_total [] = 0
peak_total (p ∷ points) = max p.total (peak_total points)

-- `ticks[ticks.length - 1] ?? 0`
unfoldable pub top_of : List ℕ → ℕ
top_of [] = 0
top_of (t ∷ []) = t
top_of (t ∷ u ∷ ticks) = top_of (u ∷ ticks)

-- `bucketShape`: the opacity of a column in hundredths
unfoldable pub column_opacity : FilledPoint → ℕ
column_opacity p = if p.partial then 45 else 100

-- `dayEdges`; `start` is `scale.map` at the start of a band.
unfoldable pub starts_of : {X : Type 0} → (start : ℕ → Option X) → List ℕ → List X
starts_of start [] = []
starts_of start (t ∷ days) = elim (start t) [
  | none ↦ starts_of start days
  | some x ↦ x ∷ starts_of start days
]

unfoldable pub day_edges : {X : Type 0} → List ℕ → (scale : Option (ℕ → Option X)) → List X
unfolding starts_of
day_edges days none = []
day_edges days (some start) = starts_of start days

-- `spanOf`: what the tooltip is handed may be missing, empty or without a datum.
unfoldable pub span_of : Option (List (Option FilledPoint)) → ℕ
span_of (some (some p ∷ payload)) = p.span
span_of payload = 1

unfoldable pub bucket_label : DateTexts → ℕ → Bucket → (span : ℕ) → String
bucket_label texts t day span = texts.medium_utc_date t ++ " (UTC)"
bucket_label texts t hour span =
    if leb span 1
    then texts.medium_local t
    else (texts.medium_local t ++ (" – " ++ texts.short_local_time (t + span * hour_ms)))

-- A row of `UsageTable`
pub record UsageRow : Type 0 where
  pub key : ℕ
  pub covers : String
  pub is_current : Bool
  pub down_text : Codes
  pub up_text : Codes
  pub total_text : Codes

unfoldable pub usage_row : DateTexts → (exponent : ℕ → ℕ) → Bucket → FilledPoint → UsageRow
unfolding bucket_label
usage_row texts exponent bucket p = record {
  key = p.t;
  covers = elim bucket [ day ↦ texts.utc_date p.t | hour ↦ bucket_label texts p.t hour p.span ];
  is_current = p.partial;
  down_text = format_bytes exponent p.down 1;
  up_text = format_bytes exponent p.up 1;
  total_text = format_bytes exponent p.total 1;
}

-- `[...points].reverse()`
unfoldable pub newest_first : List FilledPoint → List FilledPoint → List FilledPoint
newest_first [] done = done
newest_first (p ∷ points) done = newest_first points (p ∷ done)

unfoldable pub usage_rows :
    DateTexts → (exponent : ℕ → ℕ) → Bucket → List FilledPoint → List UsageRow
unfolding newest_first
usage_rows texts exponent bucket points =
    map (usage_row texts exponent bucket) (newest_first points [])

unfoldable pub first_heading : Bucket → List FilledPoint → String
first_heading day points = "Day (UTC)"
first_heading hour points = if any (λ p. ltb 1 p.span) points then "Interval" else "Hour"
