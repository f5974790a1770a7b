-- ===== src/UsageChart/Figures.antt =====
-- What the chart and the table of a user show of the traffic that the node answered with.
use mathlib.Core.List
use vlessvmorectl.Base.{
  ℕ, ◌+◌, ◌<◌, ◌≤◌, ◌^◌, String, ◌≡◌, refl, Option, some, zero, suc, List, [], ◌∷◌, All,
  All-implies, map, sum, arith, ◌∙◌, ◌++◌, sym, ap, ap₂, Bool, Bool-cases, inl, inr, leb, ◌==◌, ◌%◌,
  ◌/◌,
}
use vlessvmorectl.Types.{UsagePoint}
use vlessvmorectl.Range.{SnappedRange, Bucket}
use vlessvmorectl.Bytes.{Codes, format_bytes}
use vlessvmorectl.Series.{
  FilledPoint, Indexed, index_series, no_buckets, filled, fill_from, merge, group_from, zero_fill,
  group_by_hours,
}
use vlessvmorectl.Series.Traffic.{traffic, IsSparse, traffic-zero_fill}
use vlessvmorectl.Series.Group.{group_by_hours_figures}
use vlessvmorectl.Series.Ticks.{byte_ticks}
use vlessvmorectl.Series.Ticks.Steps.{IsAxis}
use vlessvmorectl.Series.Ticks.Honest.{byte_ticks-IsHonest}
use vlessvmorectl.UsageChart.{
  DateTexts, UsageRow, usage_columns, peak_total, top_of, usage_row, newest_first, usage_rows,
}

abbrev pub backwards : List FilledPoint → List FilledPoint
backwards [] = []
backwards (p ∷ points) = backwards points ++ (p ∷ [])

newest_first-backwards :
    (points done : List FilledPoint) → newest_first points done ≡ backwards points ++ done
unfolding newest_first
newest_first-backwards [] done = refl
newest_first-backwards (p ∷ points) done =
    newest_first-backwards points (p ∷ done)
    ∙ sym (List.append_assoc (backwards points) (p ∷ []) done)

newest_first_lem : (points : List FilledPoint) → newest_first points [] ≡ backwards points
newest_first_lem points = newest_first-backwards points [] ∙ List.append-nil (backwards points)

-- The total of a column is that of both directions.
abbrev IsSummed : FilledPoint → Type 0
IsSummed p = p.total ≡ p.up + p.down

fill_from-IsSummed : (fuel step : ℕ) (s : Indexed) (t : ℕ) → All IsSummed (fill_from fuel step s t)
unfolding fill_from filled
fill_from-IsSummed zero step s t = tt
fill_from-IsSummed (suc fuel) step s t = elim (Bool-cases (leb t s.last)) [
  | inl e ↦ rw e (refl, fill_from-IsSummed fuel step s (t + step))
  | inr e ↦ rw e tt
]

zero_fill-IsSummed :
    (date_parse : String → Option ℕ) (series : List UsagePoint) (r : SnappedRange)
    → All IsSummed (zero_fill date_parse series r)
unfolding zero_fill
zero_fill-IsSummed date_parse series r =
    let s = index_series date_parse series (record { by_bucket = no_buckets; last = r.end }) in
    fill_from-IsSummed (s.last / r.step_ms + 1) r.step_ms s r.from

group_from-IsSummed :
    (get_hours : ℕ → ℕ) (hours : ℕ) (o : FilledPoint) (ps : List FilledPoint)
    → IsSummed o
    → All IsSummed ps
    → All IsSummed (group_from get_hours hours o ps)
unfolding group_from merge
group_from-IsSummed get_hours hours o [] h hs = (h, tt)
group_from-IsSummed get_hours hours o (p ∷ ps) h (g, hs) =
    elim (Bool-cases (get_hours p.t % hours == 0)) [
      | inl e ↦ rw e (h, group_from-IsSummed get_hours hours p ps g hs)
      | inr e ↦ rw e (group_from-IsSummed get_hours hours (merge o p) ps (omega (arith, g, h)) hs)
    ]

group_by_hours-IsSummed :
    (get_hours : ℕ → ℕ) (ps : List FilledPoint) (hours : ℕ)
    → All IsSummed ps
    → All IsSummed (group_by_hours get_hours ps hours)
unfolding group_by_hours
group_by_hours-IsSummed get_hours [] hours h = tt
group_by_hours-IsSummed get_hours (p ∷ ps) hours (g, h) = elim (Bool-cases (leb hours 1)) [
  | inl e ↦ rw e (g, h)
  | inr e ↦ rw e (group_from-IsSummed get_hours hours p ps g h)
]

newest_first-IsSummed :
    (ps done : List FilledPoint)
    → All IsSummed ps
    → All IsSummed done
    → All IsSummed (newest_first ps done)
unfolding newest_first
newest_first-IsSummed [] done h g = g
newest_first-IsSummed (p ∷ ps) done (h, hs) g = newest_first-IsSummed ps (p ∷ done) hs (h, g)

sum-IsSummed :
    (ps : List FilledPoint) → All IsSummed ps → sum (map (λ p. p.up + p.down) ps) ≡ traffic ps
sum-IsSummed [] h = refl
sum-IsSummed (p ∷ ps) (g, h) = omega (arith, g, sum-IsSummed ps h)

-- The figures of a row as they are printed, with its instant and whether it is current; and those of
-- a column.
abbrev pub Printed : Type 0
Printed = ℕ × Codes × Codes × Codes × Bool

abbrev pub printed_row : UsageRow → Printed
printed_row r = (r.key, r.down_text, r.up_text, r.total_text, r.is_current)

abbrev pub printed_column : (exponent : ℕ → ℕ) → FilledPoint → Printed
printed_column exponent p = (
  p.t,
  format_bytes exponent p.down 1,
  format_bytes exponent p.up 1,
  format_bytes exponent (p.up + p.down) 1,
  p.partial,
)

module _ (texts : DateTexts) (exponent : ℕ → ℕ) (bucket : Bucket) where
  printed_rows :
      (ps : List FilledPoint)
      → All IsSummed ps
      → map printed_row (map (usage_row texts exponent bucket) ps)
        ≡ map (printed_column exponent) ps
  unfolding usage_row
  printed_rows [] h = refl
  printed_rows (p ∷ ps) (g, h) =
      ap₂
        (λ n xs.
          (
            p.t,
            format_bytes exponent p.down 1,
            format_bytes exponent p.up 1,
            format_bytes exponent n 1,
            p.partial,
          )
          ∷ xs)
        g (printed_rows ps h)

-- The table under a chart has a row for every column, the newest first, which prints the traffic down, up
-- and both together and says whether the column is still accumulating; and what the columns hold adds
-- up to the traffic of the answer, however the hours are grouped: where the buckets of the answer
-- parse to instants of the range's grid, no two alike.
pub traffic-usage_columns :
    (date_parse : String → Option ℕ) (get_hours : ℕ → ℕ) (texts : DateTexts) (exponent : ℕ → ℕ)
    (series : List UsagePoint) (r : SnappedRange) (group : ℕ)
    → 0 < r.step_ms
    → IsSparse date_parse r.from r.step_ms series
    → (map printed_row
          (usage_rows texts exponent r.bucket (usage_columns date_parse get_hours series r group))
        ≡ map
            (printed_column exponent)
            (backwards (usage_columns date_parse get_hours series r group)))
      × (sum (map (λ p. p.up + p.down) (usage_columns date_parse get_hours series r group))
          ≡ sum (map (λ p. p.up + p.down) series))
unfolding usage_columns usage_rows
traffic-usage_columns date_parse get_hours texts exponent series r group pos sparse =
    let points_filled = zero_fill date_parse series r in
    let points = group_by_hours get_hours points_filled group in
    let (up, down, total, span, partial) = group_by_hours_figures get_hours points_filled group in
    let conserved : traffic points ≡ traffic points_filled = total in
    let summed =
      group_by_hours-IsSummed get_hours points_filled group
        (zero_fill-IsSummed date_parse series r) in
    (
      printed_rows texts exponent r.bucket (newest_first points [])
            (newest_first-IsSummed points [] summed tt)
          ∙ ap (map (printed_column exponent)) (newest_first_lem points),
      sum-IsSummed points summed ∙ conserved ∙ traffic-zero_fill date_parse series r pos sparse,
    )

le-peak_total : (points : List FilledPoint) → All (λ p. p.total ≤ peak_total points) points
unfolding peak_total
le-peak_total [] = tt
le-peak_total (p ∷ points) =
    (omega arith, All-implies points (λ q h. omega (arith, h)) (le-peak_total points))

le-top_of : (step peak v : ℕ) (ticks : List ℕ) → IsAxis step peak v ticks → peak ≤ top_of ticks
unfolding top_of
le-top_of step peak v [] a = absurd a
le-top_of step peak v (x ∷ []) (e, h) = omega (arith, e)
le-top_of step peak v (x ∷ y ∷ ticks) (e, h, a) = le-top_of step peak (v + step) (y ∷ ticks) a

below_top :
    (points : List FilledPoint) (top : ℕ)
    → peak_total points ≤ top
    → All (λ p. p.total ≤ top) points
below_top points top h = All-implies points (λ p g. omega (arith, g, h)) (le-peak_total points)

module _ (exponent : ℕ → ℕ) (below : (j : ℕ) → 1024 ^ exponent (2 ^ j) ≤ 2 ^ j) where
  axis_of :
      (k peak : ℕ)
      → (ticks : List ℕ) × (byte_ticks exponent k peak ≡ some ticks) × (peak ≤ top_of ticks)
  unfolding byte_ticks
  axis_of k zero = (0 ∷ 1024 ∷ [], refl, omega arith)
  axis_of k (suc n) =
      let (ticks, e, (j, axis, exact)) =
        byte_ticks-IsHonest exponent (suc n) (omega arith) below k in
      (ticks, e, le-top_of (2 ^ j) (suc n) 0 ticks axis)

  -- The chart always has a byte axis, also where there is no traffic, and no column is taller than
  -- the axis. The condition is that the exponent of a power of two is not too large.
  pub total-le-top_of :
      (k : ℕ) (points : List FilledPoint)
      → (ticks : List ℕ) × (byte_ticks exponent k (peak_total points) ≡ some ticks)
        × All (λ p. p.total ≤ top_of ticks) points
  total-le-top_of k points =
      let (ticks, e, h) = axis_of k (peak_total points) in
      (ticks, e, below_top points (top_of ticks) h)
