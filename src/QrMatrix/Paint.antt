-- ===== src/QrMatrix/Paint.antt =====
-- What the rectangles of a QR code paint.
use native.Mathlib.Nat.{zero-add}
use vlessvmorectl.Base.{
  ℕ, zero, suc, ◌+◌, ◌-◌, ◌≤◌, ◌≡◌, refl, Bool, false, ◌&&◌, ◌||◌, Option, none, some, List, [],
  ◌∷◌, ◌++◌, ltb, leb, ◌==◌, if◌then◌else◌, arith, ap, subst,
}
use vlessvmorectl.QrMatrix.{Matrix, Rect, is_dark, close_run, row_rects, rects_from, rects}

abbrev covers : (px py : ℕ) → Rect → Bool
covers px py r = py == r.y && leb r.x px && ltb px (r.x + r.width)

-- How many of the rectangles cover a unit square of the picture.
abbrev pub layers : (px py : ℕ) → List Rect → ℕ
layers px py [] = 0
layers px py (r ∷ rs) = (if covers px py r then 1 else 0) + layers px py rs

abbrev pub dark_at : ℕ → List ℕ → Bool
dark_at x [] = false
dark_at zero (c ∷ row) = is_dark c
dark_at (suc x) (c ∷ row) = dark_at x row

-- Whether the module in a row and a column is dark; there is none outside the rows.
abbrev pub module_dark : (x y : ℕ) → List (List ℕ) → Bool
module_dark x y [] = false
module_dark x zero (row ∷ rows) = dark_at x row
module_dark x (suc y) (row ∷ rows) = module_dark x y rows

layers-append :
    (px py : ℕ) (r s : List Rect) → layers px py (r ++ s) ≡ layers px py r + layers px py s
layers-append px py [] s = omega arith
layers-append px py (a ∷ r) s = omega (arith, layers-append px py r s)

dark_from : (quiet px : ℕ) → ℕ → List ℕ → Bool
dark_from quiet px x [] = false
dark_from quiet px x (c ∷ row) =
    if px == x + quiet then is_dark c else dark_from quiet px (x + 1) row

in_run : (quiet px : ℕ) → Option ℕ → ℕ → Bool
in_run quiet px none x = false
in_run quiet px (some s) x = leb (s + quiet) px && ltb px (x + quiet)

abbrev Before : Option ℕ → ℕ → Type 0
Before none x = Unit
Before (some s) x = s ≤ x

dark_from-before :
    (quiet px x : ℕ) (row : List ℕ) → px + 1 ≤ x + quiet → dark_from quiet px x row ≡ false
unfolding dark_from
dark_from-before quiet px x [] h = refl
dark_from-before quiet px x (c ∷ row) h = ground (arith, dark_from-before quiet px (x + 1) row)

module _ (quiet px py y : ℕ) where
  layers-close_run :
      (start : Option ℕ) (x : ℕ)
      → Before start x
      → layers px py (close_run quiet y start x)
        ≡ (if py == y + quiet && in_run quiet px start x then 1 else 0)
  unfolding close_run in_run
  layers-close_run none x h = ground arith
  layers-close_run (some s) x h = ground arith

  layers-row_rects :
      (start : Option ℕ) (x : ℕ) (row : List ℕ)
      → Before start x
      → layers px py (row_rects quiet y start x row) ≡ (
          if py == y + quiet && (in_run quiet px start x || dark_from quiet px x row) then 1 else 0)
  unfolding row_rects dark_from in_run
  layers-row_rects none x [] h = ground arith
  layers-row_rects (some s) x [] h = ground (arith, layers-close_run (some s) x h)
  layers-row_rects none x (c ∷ row) h = ground (
    arith,
    layers-row_rects none (x + 1) row tt,
    layers-row_rects (some x) (x + 1) row (omega arith),
    dark_from-before quiet px (x + 1) row,
  )
  layers-row_rects (some s) x (c ∷ row) h = ground (
    arith,
    layers-row_rects none (x + 1) row tt,
    layers-row_rects (some s) (x + 1) row (omega arith),
    dark_from-before quiet px (x + 1) row,
  )

dark_at-next :
    (a b c : ℕ) (row : List ℕ) → 1 + b ≤ a → dark_at (a - b) (c ∷ row) ≡ dark_at (a - (b + 1)) row
dark_at-next a b c row h =
    ap (λ (t : ℕ). dark_at t (c ∷ row)) {x = a - b} {y = suc (a - (b + 1))} (omega arith)

module_dark-next :
    (x a b : ℕ) (row : List ℕ) (rows : List (List ℕ))
    → 1 + b ≤ a
    → module_dark x (a - b) (row ∷ rows) ≡ module_dark x (a - (b + 1)) rows
module_dark-next x a b row rows h =
    ap (λ (t : ℕ). module_dark x t (row ∷ rows)) {x = a - b} {y = suc (a - (b + 1))} (omega arith)

module_dark-first :
    (x a b : ℕ) (row : List ℕ) (rows : List (List ℕ))
    → a ≡ b
    → module_dark x (a - b) (row ∷ rows) ≡ dark_at x row
module_dark-first x a b row rows h =
    ap (λ (t : ℕ). module_dark x t (row ∷ rows)) {x = a - b} {y = zero} (omega arith)

dark_at-first : (a b c : ℕ) (row : List ℕ) → a ≡ b → dark_at (a - b) (c ∷ row) ≡ is_dark c
dark_at-first a b c row h = ap (λ (t : ℕ). dark_at t (c ∷ row)) {x = a - b} {y = zero} (omega arith)

next_column : (x quiet : ℕ) → x + 1 + quiet ≡ x + quiet + 1
next_column x quiet = omega arith

dark_from-at :
    (quiet px x : ℕ) (row : List ℕ)
    → dark_from quiet px x row ≡ (leb (x + quiet) px && dark_at (px - (x + quiet)) row)
unfolding dark_from
dark_from-at quiet px x [] = ground arith
dark_from-at quiet px x (c ∷ row) =
    rw (dark_from-at quiet px (x + 1) row, next_column x quiet)
      (ground (arith, dark_at-next px (x + quiet) c row, dark_at-first px (x + quiet) c row))

layers-rects_from :
    (quiet px py y : ℕ) (rows : List (List ℕ))
    → layers px py (rects_from quiet y rows) ≡ (
        if leb quiet px && leb (y + quiet) py && module_dark (px - quiet) (py - (y + quiet)) rows
        then 1
        else 0)
unfolding rects_from in_run
layers-rects_from quiet px py y [] = ground arith
layers-rects_from quiet px py y (row ∷ rows) =
    rw
      (
        layers-append px py (row_rects quiet y none 0 row) (rects_from quiet (y + 1) rows),
        layers-row_rects quiet px py y none 0 row tt,
        layers-rects_from quiet px py (y + 1) rows,
        dark_from-at quiet px 0 row,
        next_column y quiet,
        zero-add quiet,
      )
      (ground (
        arith,
        module_dark-next (px - quiet) py (y + quiet) row rows,
        module_dark-first (px - quiet) py (y + quiet) row rows,
      ))

-- Every dark module is painted by exactly one rectangle, `quiet_zone` further right and down, and
-- nothing else of the picture is painted.
pub layers-rects :
    (qr : Matrix) (px py : ℕ)
    → layers px py (rects qr) ≡ (
        if leb qr.quiet_zone px
          && leb qr.quiet_zone py
          && module_dark (px - qr.quiet_zone) (py - qr.quiet_zone) qr.rows
        then 1
        else 0)
unfolding rects
layers-rects qr px py =
    let q : ℕ = qr.quiet_zone in
    subst
      (λ (b : ℕ).
        layers px py (rects_from q 0 qr.rows)
        ≡ (if leb q px && leb b py && module_dark (px - q) (py - b) qr.rows then 1 else 0))
      (zero-add q) (layers-rects_from q px py 0 qr.rows)
