-- ===== src/Series/Peak.antt =====
-- `peakOf` of web/src/features/usage/series.ts.
use vlessvmorectl.Base.{
  ◌≤◌, ◌<◌, ◌≡◌, ◌↔◌, refl, ◌⊎◌, none, some, List, [], ◌∷◌, All, In, ltb, Bool-cases, inl, inr,
  arith, subst, All-implies, All-In,
}
use vlessvmorectl.Series.{FilledPoint, peak_from, peak_of}

-- The largest of a list of points, and of one more.
peak_from_max :
    (best : FilledPoint) (ps : List FilledPoint)
    → (p : FilledPoint) × (peak_from (some best) ps ≡ some p)
      × ((p ≡ best) ⊎ In p ps)
      × (best.total ≤ p.total)
      × All (λ q. q.total ≤ p.total) ps
unfolding peak_from
peak_from_max best [] = (best, refl, inl refl, omega arith, tt)
peak_from_max best (q ∷ ps) = elim (Bool-cases (ltb best.total q.total)) [
  | inl e ↦
      let (p, r, mem, up, all) = peak_from_max q ps in (p, rw e r, inr mem, ground arith, (up, all))
  | inr e ↦
      let (p, r, mem, up, all) = peak_from_max best ps in
      (p, rw e r, ground arith, up, (ground arith, all))
]

-- The peak is a point of the series with traffic, and no point has more.
pub peak_of_max :
    (points : List FilledPoint) (p : FilledPoint)
    → peak_of points ≡ some p
    → In p points × (0 < p.total) × All (λ q. q.total ≤ p.total) points
unfolding peak_of peak_from
peak_of_max [] p h = cc
peak_of_max (q ∷ ps) p h =
    let (b, e, mem, up, all) = peak_from_max q ps in
    let same : (b ≡ p) × (0 < b.total) = (ground arith, ground arith) in
    subst
      (λ (x : FilledPoint). In x (q ∷ ps) × (0 < x.total) × All (λ r. r.total ≤ x.total) (q ∷ ps))
      same.0 (mem, same.1, (up, all))

-- There is no peak exactly when no point has traffic.
pub peak_of-none_iff :
    (points : List FilledPoint) → (peak_of points ≡ none) ↔ All (λ q. q.total ≡ 0) points
unfolding peak_of peak_from
peak_of-none_iff [] = (λ h. tt, λ h. refl)
peak_of-none_iff (q ∷ ps) =
    let (b, e, mem, up, all) = peak_from_max q ps in
    (
      λ h.
          let zero_peak : b.total ≡ 0 = ground arith in
          (
            omega arith,
            All-implies {P = λ (r : FilledPoint). r.total ≤ b.total} {Q = λ r. r.total ≡ 0} ps
                (λ r le. omega arith) all,
          ),
      λ h.
          let zero_peak = All-In (λ (r : FilledPoint). r.total ≡ 0) b (q ∷ ps) h mem in
          ground arith,
    )
