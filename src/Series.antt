-- ===== src/Series.antt =====
-- web/src/features/usage/series.ts: the series behind a usage chart. `Date.parse` and the local
-- calendar (`getHours` and the day of `localDay`) are parameters. The ticks of the axis are in Ticks.
pub mod Grid
pub mod Traffic
pub mod Group
pub mod Peak
pub mod Ticks
mod Tests
use vlessvmorectl.Base.{
  ℕ, zero, suc, ◌+◌, ◌-◌, ◌/◌, ◌%◌, String, Bool, true, false, not, ◌||◌, ◌&&◌, Option, none, some,
  List, [], ◌∷◌, ltb, leb, ◌==◌, str_eq, if◌then◌else◌,
}
use vlessvmorectl.Types.{UsagePoint}
use vlessvmorectl.Range.{SnappedRange}

pub record FilledPoint : Type 0 where
  pub t : ℕ
  pub up : ℕ
  pub down : ℕ
  pub total : ℕ
  pub partial : Bool
  pub span : ℕ

-- `Map<number, UsagePoint>`, of which only `get` and `set` are used
abbrev pub Buckets : Type 0
Buckets = ℕ → Option UsagePoint

abbrev pub no_buckets : Buckets
no_buckets t = none

unfoldable pub put : ℕ → UsagePoint → Buckets → Buckets
put t p m k = if t == k then some p else m k

-- What the first loop of `zeroFill` leaves: the map and the last instant.
pub record Indexed : Type 0 where
  pub by_bucket : Buckets
  pub last : ℕ

-- One round of that loop; an instant that does not parse is skipped.
unfoldable pub index_point : Option ℕ → UsagePoint → Indexed → Indexed
unfolding put
index_point none p s = s
index_point (some t) p s = record {
  by_bucket = put t p s.by_bucket;
  last = if ltb s.last t then t else s.last;
}

abbrev pub up_at : Option UsagePoint → ℕ
up_at none = 0
up_at (some p) = p.up

abbrev pub down_at : Option UsagePoint → ℕ
down_at none = 0
down_at (some p) = p.down

unfoldable pub filled : Indexed → ℕ → FilledPoint
filled s t = record {
  t = t;
  up = up_at (s.by_bucket t);
  down = down_at (s.by_bucket t);
  total = up_at (s.by_bucket t) + down_at (s.by_bucket t);
  partial = t == s.last;
  span = 1;
}

-- `for (let t = r.from; t <= last; t += r.stepMs)`, with the rounds that are left as fuel
unfoldable pub fill_from : ℕ → ℕ → Indexed → ℕ → List FilledPoint
unfolding filled
fill_from zero step s t = []
fill_from (suc fuel) step s t =
    let rest = filled s t ∷ fill_from fuel step s (t + step) in if leb t s.last then rest else []

module _ (date_parse : String → Option ℕ) where
  unfoldable pub index_series : List UsagePoint → Indexed → Indexed
  unfolding index_point
  index_series [] s = s
  index_series (p ∷ ps) s = index_series ps (index_point (date_parse p.bucket) p s)

  unfoldable pub zero_fill : List UsagePoint → SnappedRange → List FilledPoint
  unfolding index_series fill_from
  zero_fill series r =
      let s = index_series series (record { by_bucket = no_buckets; last = r.end }) in
      fill_from (s.last / r.step_ms + 1) r.step_ms s r.from

-- The open column takes one more point.
unfoldable pub merge : FilledPoint → FilledPoint → FilledPoint
merge open' p = record open' {
  up = open'.up + p.up;
  down = open'.down + p.down;
  total = open'.total + p.total;
  span = open'.span + p.span;
  partial = open'.partial || p.partial;
}

module _ (get_hours : ℕ → ℕ) where
  -- The loop of `groupByHours`: the first argument is the last column of `out`.
  unfoldable pub group_from : ℕ → FilledPoint → List FilledPoint → List FilledPoint
  unfolding merge
  group_from hours open' [] = open' ∷ []
  group_from hours open' (p ∷ ps) =
      let closed = open' ∷ group_from hours p ps in
      let longer = group_from hours (merge open' p) ps in
      if get_hours p.t % hours == 0 then closed else longer

  unfoldable pub group_by_hours : List FilledPoint → ℕ → List FilledPoint
  unfolding group_from
  group_by_hours [] hours = []
  group_by_hours (p ∷ ps) hours = if leb hours 1 then p ∷ ps else group_from hours p ps

module _ (local_day : ℕ → String) where
  -- The loop of `dayBoundaries`, with `prev`.
  boundaries_from : String → List FilledPoint → List ℕ
  boundaries_from prev [] = []
  boundaries_from prev (p ∷ ps) =
      let rest = boundaries_from (local_day p.t) ps in
      if not (str_eq prev "") && not (str_eq (local_day p.t) prev) then p.t ∷ rest else rest

  unfoldable pub day_boundaries : List FilledPoint → List ℕ
  unfolding boundaries_from
  day_boundaries points = boundaries_from "" points

-- The loop of `peakOf`, with `peak`.
unfoldable pub peak_from : Option FilledPoint → List FilledPoint → Option FilledPoint
peak_from peak [] = peak
peak_from none (p ∷ ps) = peak_from (some p) ps
peak_from (some best) (p ∷ ps) = peak_from (some (if ltb best.total p.total then p else best)) ps

unfoldable pub peak_of : List FilledPoint → Option FilledPoint
unfolding peak_from
peak_of points = elim (peak_from none points) [
  | none ↦ none
  | some peak ↦ if ltb 0 peak.total then some peak else none
]
