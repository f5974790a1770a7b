-- ===== src/Series/Group.antt =====
-- `groupByHours` of web/src/features/usage/series.ts: columns of several hours.
use vlessvmorectl.Base.{
  ℕ, ◌<◌, ◌≡◌, ◌%◌, ◌==◌, refl, false, List, [], ◌∷◌, All, map, sum, any, arith, leb, Bool-cases,
  inl, inr,
}
use vlessvmorectl.Series.{FilledPoint, merge, group_from, group_by_hours}

abbrev pub sum_of : (FilledPoint → ℕ) → List FilledPoint → ℕ
sum_of f ps = sum (map f ps)

module _ (get_hours : ℕ → ℕ) where
  -- What is conserved by a grouping.
  abbrev pub SameFigures : List FilledPoint → List FilledPoint → Type 0
  SameFigures xs ys =
      (sum_of (λ p. p.up) xs ≡ sum_of (λ p. p.up) ys)
      × (sum_of (λ p. p.down) xs ≡ sum_of (λ p. p.down) ys)
      × (sum_of (λ p. p.total) xs ≡ sum_of (λ p. p.total) ys)
      × (sum_of (λ p. p.span) xs ≡ sum_of (λ p. p.span) ys)
      × (any (λ p. p.partial) xs ≡ any (λ p. p.partial) ys)

  -- Every column but the first starts at an hour that the width divides.
  abbrev pub StartsAligned : ℕ → List FilledPoint → Type 0
  StartsAligned hours [] = Unit
  StartsAligned hours (p ∷ ps) = All (λ q. get_hours q.t % hours ≡ 0) ps

  group_from_figures :
      (hours : ℕ) (o : FilledPoint) (ps : List FilledPoint)
      → SameFigures (group_from get_hours hours o ps) (o ∷ ps)
  unfolding group_from merge
  group_from_figures hours o [] = (refl, refl, refl, refl, refl)
  group_from_figures hours o (p ∷ ps) = elim (Bool-cases (get_hours p.t % hours == 0)) [
    | inl e ↦ let ih = group_from_figures hours p ps in rw e (ground arith)
    | inr e ↦ let ih = group_from_figures hours (merge o p) ps in rw e (ground arith)
  ]

  group_from_starts :
      (hours : ℕ) (o : FilledPoint) (ps : List FilledPoint)
      → (c : FilledPoint) × (cs : List FilledPoint) × (group_from get_hours hours o ps ≡ c ∷ cs)
        × (c.t ≡ o.t)
        × All (λ q. get_hours q.t % hours ≡ 0) cs
  unfolding group_from merge
  group_from_starts hours o [] = (o, [], refl, refl, tt)
  group_from_starts hours o (p ∷ ps) = elim (Bool-cases (get_hours p.t % hours == 0)) [
    | inl e ↦
        let (c, cs, g, at, all) = group_from_starts hours p ps in
        (o, c ∷ cs, rw (e, g) refl, refl, (rw at (ground arith), all))
    | inr e ↦
        let (c, cs, g, at, all) = group_from_starts hours (merge o p) ps in (c, cs, rw e g, at, all)
  ]

  -- Grouping conserves every figure: the traffic up, down and in total, the number of buckets
  -- covered, and whether some column is still accumulating.
  pub group_by_hours_figures :
      (points : List FilledPoint) (hours : ℕ)
      → SameFigures (group_by_hours get_hours points hours) points
  unfolding group_by_hours
  group_by_hours_figures [] hours = (refl, refl, refl, refl, refl)
  group_by_hours_figures (p ∷ ps) hours = ground (arith, group_from_figures hours p ps)

  -- Grouped by more than one hour, every column but the first starts at a local hour that the
  -- width divides.
  pub group_by_hours_starts :
      (points : List FilledPoint) (hours : ℕ)
      → 1 < hours
      → StartsAligned hours (group_by_hours get_hours points hours)
  unfolding group_by_hours
  group_by_hours_starts [] hours h = tt
  group_by_hours_starts (p ∷ ps) hours h =
      let (c, cs, g, at, all) = group_from_starts hours p ps in
      let wide : leb hours 1 ≡ false = ground arith in rw (wide, g) all
