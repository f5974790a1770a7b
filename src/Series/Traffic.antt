-- ===== src/Series/Traffic.antt =====
-- `zeroFill` of web/src/features/usage/series.ts loses no traffic and makes none up.
use vlessvmorectl.Base.{
  ℕ, zero, suc, ◌+◌, ◌*◌, ◌/◌, ◌≤◌, ◌<◌, ◌≡◌, ◌≢◌, refl, subst, String, Option, none, some, List,
  [], ◌∷◌, All, map, sum, arith, leb, Bool-cases, inl, inr, sym,
}
use vlessvmorectl.Types.{UsagePoint}
use vlessvmorectl.Range.{SnappedRange}
use vlessvmorectl.Series.{
  FilledPoint, Buckets, put, Indexed, fill_from, zero_fill, index_series, index_point, no_buckets,
}
use vlessvmorectl.Series.Grid.{enough_rounds}

abbrev pub traffic : List FilledPoint → ℕ
traffic ps = sum (map (λ p. p.total) ps)

-- the filled points of a map, up to a last instant
abbrev fill : ℕ → ℕ → ℕ → Buckets → ℕ → List FilledPoint
fill fuel step last m t = fill_from fuel step (record { by_bucket = m; last = last }) t

-- An entry before the grid's start changes nothing.
fill-put_before :
    (fuel step last : ℕ) (m : Buckets) (t k : ℕ) (p : UsagePoint)
    → k < t
    → traffic (fill fuel step last (put k p m) t) ≡ traffic (fill fuel step last m t)
unfolding fill_from put
fill-put_before zero step last m t k p h = refl
fill-put_before (suc fuel) step last m t k p h = elim (Bool-cases (leb t last)) [
  | inl e ↦ rw e (ground (arith, fill-put_before fuel step last m (t + step) k p))
  | inr e ↦ rw e refl
]

-- A new entry on the grid adds its traffic.
fill-put :
    (fuel step last : ℕ) (m : Buckets) (t i k : ℕ) (p : UsagePoint)
    → 0 < step
    → k ≡ t + i * step
    → k ≤ last
    → last < t + fuel * step
    → m k ≡ none
    → traffic (fill fuel step last (put k p m) t)
      ≡ traffic (fill fuel step last m t) + (p.up + p.down)
unfolding fill_from put
fill-put zero step last m t i k p s h le f free = absurd (omega arith)
fill-put (suc fuel) step last m t zero k p s h le f free = elim (Bool-cases (leb t last)) [
  | inl e ↦
      let same : k ≡ t = omega arith in
      let at_t : m t ≡ none = subst (λ j. m j ≡ none) same free in
      rw e (ground (arith, fill-put_before fuel step last m (t + step) k p))
  | inr e ↦ absurd (ground arith)
]
fill-put (suc fuel) step last m t (suc i) k p s h le f free =
    let later : t < k = omega arith in
    elim (Bool-cases (leb t last)) [
      | inl e ↦ rw e (
          ground (
            arith,
            fill-put fuel step last m (t + step) i k p s (omega arith) le (omega arith) free,
          ))
      | inr e ↦ absurd (ground arith)
    ]

fill-no_buckets : (fuel step last t : ℕ) → traffic (fill fuel step last no_buckets t) ≡ 0
unfolding fill_from
fill-no_buckets zero step last t = refl
fill-no_buckets (suc fuel) step last t = elim (Bool-cases (leb t last)) [
  | inl e ↦ rw e (ground (arith, fill-no_buckets fuel step last (t + step)))
  | inr e ↦ rw e refl
]

-- The instants that a series names are on the grid and differ from one another, and none of them is
-- in the map yet.
module _ (date_parse : String → Option ℕ) (from step : ℕ) where
  abbrev pub IsSparse : List UsagePoint → Type 0
  IsSparse [] = Unit
  IsSparse (p ∷ ps) =
      ((t : ℕ) × (i : ℕ) × (date_parse p.bucket ≡ some t)
        × (t ≡ from + i * step)
        × All (λ q. date_parse q.bucket ≢ some t) ps)
      × IsSparse ps

  abbrev IsFree : Buckets → List UsagePoint → Type 0
  IsFree m [] = Unit
  IsFree m (p ∷ ps) = ((t : ℕ) → date_parse p.bucket ≡ some t → m t ≡ none) × IsFree m ps

  IsFree-put :
      (m : Buckets) (t : ℕ) (p : UsagePoint) (ps : List UsagePoint)
      → IsFree m ps
      → All (λ q. date_parse q.bucket ≢ some t) ps
      → IsFree (put t p m) ps
  unfolding put
  IsFree-put m t p [] h d = tt
  IsFree-put m t p (q ∷ ps) (h, hs) (d, ds) =
      (λ k e. ground (arith, h k), IsFree-put m t p ps hs ds)

  IsFree-no_buckets : (ps : List UsagePoint) → IsFree no_buckets ps
  IsFree-no_buckets [] = tt
  IsFree-no_buckets (p ∷ ps) = (λ t e. refl, IsFree-no_buckets ps)

  last-index_point :
      (o : Option ℕ) (p : UsagePoint) (s : Indexed) → s.last ≤ (index_point o p s).last
  unfolding index_point
  last-index_point none p s = omega arith
  last-index_point (some t) p s = ground arith

  last-index_series :
      (ps : List UsagePoint) (s : Indexed) → s.last ≤ (index_series date_parse ps s).last
  unfolding index_series
  last-index_series [] s = omega arith
  last-index_series (p ∷ ps) s = omega (
    arith,
    last-index_point (date_parse p.bucket) p s,
    last-index_series ps (index_point (date_parse p.bucket) p s),
  )

  traffic-index_series :
      (ps : List UsagePoint) (s : Indexed) (fuel last : ℕ)
      → 0 < step
      → IsSparse ps
      → IsFree s.by_bucket ps
      → (index_series date_parse ps s).last ≤ last
      → last < from + fuel * step
      → traffic (fill fuel step last (index_series date_parse ps s).by_bucket from)
        ≡ traffic (fill fuel step last s.by_bucket from) + sum (map (λ p. p.up + p.down) ps)
  unfolding index_series index_point
  traffic-index_series [] s fuel last pos sp fr le en = omega arith
  traffic-index_series (p ∷ ps) s fuel last pos ((t, i, e, g, d), sp) (f, fr) le en =
      let s' = index_point (some t) p s in
      let reached : t ≤ s'.last = ground arith in
      let grown = last-index_series ps s' in
      let le' = subst (λ o. (index_series date_parse ps (index_point o p s)).last ≤ last) e le in
      subst
        (λ o.
          traffic
            (fill fuel step last (index_series date_parse ps (index_point o p s)).by_bucket from)
          ≡ traffic (fill fuel step last s.by_bucket from)
            + sum (map (λ q. q.up + q.down) (p ∷ ps)))
        (sym e)
        (omega (
          arith,
          traffic-index_series ps s' fuel last pos sp (IsFree-put s.by_bucket t p ps fr d) le' en,
          fill-put fuel step last s.by_bucket from i t p pos g (omega arith) en (f t e),
        ))

-- No traffic is lost or made up: where the buckets of a series parse to instants of the range's
-- grid, no two alike, the totals of the filled points add up to the traffic of the series.
pub traffic-zero_fill :
    (date_parse : String → Option ℕ) (series : List UsagePoint) (r : SnappedRange)
    → 0 < r.step_ms
    → IsSparse date_parse r.from r.step_ms series
    → traffic (zero_fill date_parse series r) ≡ sum (map (λ p. p.up + p.down) series)
unfolding zero_fill
traffic-zero_fill date_parse series r pos sparse =
    let s = index_series date_parse series (record { by_bucket = no_buckets; last = r.end }) in
    let fuel = s.last / r.step_ms + 1 in
    omega (
      arith,
      traffic-index_series date_parse r.from r.step_ms series
          (record { by_bucket = no_buckets; last = r.end }) fuel s.last pos sparse
          (IsFree-no_buckets date_parse r.from r.step_ms series) (omega arith)
          (enough_rounds s.last r.from r.step_ms pos),
      fill-no_buckets fuel r.step_ms s.last r.from,
    )
