-- ===== src/QrMatrix.antt =====
-- web/src/components/QrMatrix.tsx: the runs of dark modules of a QR code. A row is the list of its
-- character codes, and a run is the rectangle that its piece of the path draws, one module high.
pub mod Paint
mod Tests
use vlessvmorectl.Base.{
  ℕ, zero, suc, ◌+◌, ◌-◌, Bool, Option, none, some, List, [], ◌∷◌, ◌++◌, ◌==◌, if◌then◌else◌,
  or_default,
}

-- `QRMatrix`
pub record Matrix : Type 0 where
  pub size : ℕ
  pub quiet_zone : ℕ
  pub rows : List (List ℕ)

-- `M${x},${y}h${width}v1h-${width}z`
pub record Rect : Type 0 where
  pub x : ℕ
  pub y : ℕ
  pub width : ℕ

abbrev pub is_dark : ℕ → Bool
is_dark c = c == b'1'

-- The rectangle of the run that ends before `x`, where there is one.
unfoldable pub close_run : (quiet y : ℕ) → Option ℕ → ℕ → List Rect
close_run quiet y none x = []
close_run quiet y (some run_start) x =
    record { x = run_start + quiet; y = y + quiet; width = x - run_start } ∷ []

-- The inner loop from column `x` on; past the end of the row nothing is dark.
unfoldable pub row_rects : (quiet y : ℕ) → Option ℕ → ℕ → List ℕ → List Rect
unfolding close_run
row_rects quiet y run_start x [] = close_run quiet y run_start x
row_rects quiet y run_start x (c ∷ row) =
    let dark = row_rects quiet y (some (or_default run_start x)) (x + 1) row in
    let light = close_run quiet y run_start x ++ row_rects quiet y none (x + 1) row in
    if is_dark c then dark else light

unfoldable pub rects_from : (quiet : ℕ) → ℕ → List (List ℕ) → List Rect
unfolding row_rects
rects_from quiet y [] = []
rects_from quiet y (row ∷ rows) = row_rects quiet y none 0 row ++ rects_from quiet (y + 1) rows

unfoldable pub rects : Matrix → List Rect
unfolding rects_from
rects qr = rects_from qr.quiet_zone 0 qr.rows
