-- ===== src/Base64Url/Groups.antt =====
-- Bytes in groups of three, and six-bit numbers in groups of four.
use vlessvmorectl.Base.{
  ℕ, ◌-◌, ◌%◌, ◌<◌, ◌≡◌, refl, some, List, [], ◌∷◌, All, length, arith, ap, ◌∙◌,
}
use vlessvmorectl.Base64Url.{sextets, padding, group_bytes, repeat}

abbrev pub AreBytes : List ℕ → Type 0
AreBytes = All (λ b. b < 256)

abbrev pub AreSextets : List ℕ → Type 0
AreSextets = All (λ n. n < 64)

pub sextets-AreSextets : (bytes : List ℕ) → AreBytes bytes → AreSextets (sextets bytes)
unfolding sextets
sextets-AreSextets [] h = tt
sextets-AreSextets (a ∷ []) h = omega arith
sextets-AreSextets (a ∷ b ∷ []) h = omega arith
sextets-AreSextets (a ∷ b ∷ c ∷ bytes) (p, (q, (r, h))) =
    (omega arith, (omega arith, (omega arith, (omega arith, sextets-AreSextets bytes h))))

pub group_bytes-sextets :
    (bytes : List ℕ) → AreBytes bytes → group_bytes (sextets bytes) ≡ some bytes
unfolding sextets group_bytes
group_bytes-sextets [] h = refl
group_bytes-sextets (a ∷ []) h = ground arith
group_bytes-sextets (a ∷ b ∷ []) h = ground arith
group_bytes-sextets (a ∷ b ∷ c ∷ bytes) (p, (q, (r, h))) =
    rw (group_bytes-sextets bytes h) (ground arith)

pub repeat-padding :
    (bytes : List ℕ) → repeat b'=' ((4 - length (sextets bytes) % 4) % 4) ≡ padding bytes
unfolding sextets padding
repeat-padding [] = refl
repeat-padding (a ∷ []) = refl
repeat-padding (a ∷ b ∷ []) = refl
repeat-padding (a ∷ b ∷ c ∷ bytes) =
    ap (λ (t : ℕ). repeat b'=' t) {y = (4 - length (sextets bytes) % 4) % 4} (omega arith)
    ∙ repeat-padding bytes
