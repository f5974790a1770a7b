-- ===== src/Bytes/Clean.antt =====
-- What `trim` and `toLowerCase` of parseBytes do to a printed size.
use vlessvmorectl.Base.{ℕ, ◌≡◌, refl, [], ◌∷◌, ◌++◌, map, arith}
use vlessvmorectl.Bytes.{Codes, drop_spaces, drop_spaces_end, lower, clean}
use vlessvmorectl.Bytes.Digits.{AllDigits}

drop_spaces_end-digits :
    (s : Codes) (c : ℕ) (t : Codes)
    → AllDigits s
    → drop_spaces_end (c ∷ t) ≡ c ∷ t
    → drop_spaces_end (s ++ c ∷ t) ≡ s ++ c ∷ t
unfolding drop_spaces_end
drop_spaces_end-digits [] c t h e = e
drop_spaces_end-digits (d ∷ s) c t (dig, h) e = ground (arith, drop_spaces_end-digits s c t h e)

lower-digits : (s t : Codes) → AllDigits s → map lower (s ++ t) ≡ s ++ map lower t
unfolding lower
lower-digits [] t h = refl
lower-digits (c ∷ s) t (d, h) = ground (arith, lower-digits s t h)

-- Digits and what stands behind them, where that neither ends in a space nor is empty.
pub clean-digits :
    (d : ℕ) (s : Codes) (c : ℕ) (t : Codes)
    → AllDigits (d ∷ s)
    → drop_spaces_end (c ∷ t) ≡ c ∷ t
    → clean (d ∷ s ++ c ∷ t) ≡ d ∷ s ++ map lower (c ∷ t)
unfolding clean drop_spaces
clean-digits d s c t h e =
    ground (arith, drop_spaces_end-digits (d ∷ s) c t h e, lower-digits (d ∷ s) (c ∷ t) h)
