-- ===== src/QrMatrix/Tests.antt =====
-- A matrix of three rows.
use vlessvmorectl.Base.{ℕ, ◌-◌, ◌≡◌, refl, ◌&&◌, [], ◌∷◌, leb, if◌then◌else◌}
use vlessvmorectl.QrMatrix.{Matrix, Rect, rects}
use vlessvmorectl.QrMatrix.Paint.{layers, module_dark, layers-rects}

abbrev qr : Matrix
qr = record {
  size = 3;
  quiet_zone = 4;
  rows = (b'1' ∷ b'1' ∷ b'0' ∷ []) ∷ (b'0' ∷ b'0' ∷ b'0' ∷ []) ∷ (b'1' ∷ b'0' ∷ b'1' ∷ []) ∷ [];
}

abbrev rect : ℕ → ℕ → ℕ → Rect
rect x y width = record { x = x; y = y; width = width }

three_runs : rects qr ≡ rect 4 4 2 ∷ rect 4 6 1 ∷ rect 6 6 1 ∷ []
unfolding rects
three_runs = refl

layers-rects_example : layers 5 4 (rects qr) ≡ (
    if leb qr.quiet_zone 5
      && leb qr.quiet_zone 4
      && module_dark (5 - qr.quiet_zone) (4 - qr.quiet_zone) qr.rows
    then 1
    else 0)
layers-rects_example = layers-rects qr 5 4
