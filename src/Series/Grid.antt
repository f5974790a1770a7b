-- ===== src/Series/Grid.antt =====
-- The grid of `zeroFill` in web/src/features/usage/series.ts.
use vlessvmorectl.Base.{
  ℕ, zero, suc, ◌+◌, ◌*◌, ◌/◌, ◌≤◌, ◌<◌, ◌≡◌, ◌==◌, String, Option, List, [], ◌∷◌, All, length,
  arith, leb, Bool-cases, inl, inr,
}
use vlessvmorectl.Types.{UsagePoint}
use vlessvmorectl.Range.{SnappedRange}
use vlessvmorectl.Series.{FilledPoint, Indexed, fill_from, zero_fill, index_series, no_buckets}

-- The points start one step apart, from t on.
abbrev OnGrid : ℕ → ℕ → List FilledPoint → Type 0
OnGrid step t [] = Unit
OnGrid step t (p ∷ ps) = (p.t ≡ t) × OnGrid step (t + step) ps

-- A point is flagged as accumulating exactly at the last instant, covers one bucket, is not after
-- the last instant, and its total is its up and its down.
abbrev IsPoint : ℕ → FilledPoint → Type 0
IsPoint last p =
    (p.partial ≡ (p.t == last)) × (p.span ≡ 1) × (p.t ≤ last) × (p.total ≡ p.up + p.down)

fill_from-OnGrid :
    (fuel step : ℕ) (s : Indexed) (t : ℕ)
    → OnGrid step t (fill_from fuel step s t) × All (IsPoint s.last) (fill_from fuel step s t)
unfolding fill_from
fill_from-OnGrid zero step s t = (tt, tt)
fill_from-OnGrid (suc fuel) step s t = ground (arith, fill_from-OnGrid fuel step s (t + step))

-- With enough fuel the loop ends by its test.
fill_from_ends :
    (fuel step : ℕ) (s : Indexed) (t : ℕ)
    → s.last < t + fuel * step
    → s.last < t + length (fill_from fuel step s t) * step
unfolding fill_from
fill_from_ends zero step s t h = h
fill_from_ends (suc fuel) step s t h = elim (Bool-cases (leb t s.last)) [
  | inl e ↦ rw e (omega (arith, fill_from_ends fuel step s (t + step) (omega arith)))
  | inr e ↦ rw e (ground arith)
]

pub enough_rounds : (last from step : ℕ) → 0 < step → last < from + (last / step + 1) * step
enough_rounds last from step h = grind arith

-- The first loop's result, from which the second one fills.
abbrev indexed : (String → Option ℕ) → List UsagePoint → SnappedRange → Indexed
indexed date_parse series r =
    index_series date_parse series (record { by_bucket = no_buckets; last = r.end })

-- The filled series stands on the grid from the start of the range, one bucket apart, and reaches
-- past the last instant with its end; each of its points is not after that instant, covers one
-- bucket, adds up, and is flagged as accumulating exactly when it is that instant.
zero_fill_grid :
    (date_parse : String → Option ℕ) (series : List UsagePoint) (r : SnappedRange)
    → 0 < r.step_ms
    → OnGrid r.step_ms r.from (zero_fill date_parse series r)
      × All (IsPoint (indexed date_parse series r).last) (zero_fill date_parse series r)
      × ((indexed date_parse series r).last
          < r.from + length (zero_fill date_parse series r) * r.step_ms)
unfolding zero_fill
zero_fill_grid date_parse series r h =
    let s = indexed date_parse series r in
    let (on, ok) = fill_from-OnGrid (s.last / r.step_ms + 1) r.step_ms s r.from in
    (on, ok, fill_from_ends _ r.step_ms s r.from (enough_rounds s.last r.from r.step_ms h))
