-- ===== src/AttachEntry/Picks.antt =====
-- The picked keys as a set: a list without repetitions.
use vlessvmorectl.Base.{
  String, ◌≡◌, refl, Bool, false, not, ◌||◌, ◌&&◌, List, [], ◌∷◌, ◌++◌, keep, str_eq, eq_iff,
  if◌then◌else◌, Bool-cases, inl, inr, arith,
}
use vlessvmorectl.CreateUser.{listed}
use vlessvmorectl.AttachEntry.{toggle_pick}

abbrev pub IsDistinct : List String → Type 0
IsDistinct [] = Unit
IsDistinct (k ∷ ks) = (listed k ks ≡ false) × IsDistinct ks

pub listed-append :
    (j : String) (s t : List String) → listed j (s ++ t) ≡ (listed j s || listed j t)
unfolding listed
listed-append j [] t = refl
listed-append j (k ∷ s) t = ground (arith, listed-append j s t)

pub listed-keep :
    (p : String → Bool) (j : String) (s : List String)
    → listed j s ≡ false
    → listed j (keep p s) ≡ false
unfolding listed
listed-keep p j [] h = refl
listed-keep p j (k ∷ s) h = ground (arith, listed-keep p j s)

pub keep-IsDistinct : (p : String → Bool) (s : List String) → IsDistinct s → IsDistinct (keep p s)
keep-IsDistinct p [] h = tt
keep-IsDistinct p (k ∷ s) (n, h) = elim (Bool-cases (p k)) [
  | inl e ↦ rw e (listed-keep p k s n, keep-IsDistinct p s h)
  | inr e ↦ rw e (keep-IsDistinct p s h)
]

pub snoc-IsDistinct :
    (s : List String) (k : String) → IsDistinct s → listed k s ≡ false → IsDistinct (s ++ k ∷ [])
unfolding listed
snoc-IsDistinct [] k h n = (refl, tt)
snoc-IsDistinct (j ∷ s) k (m, h) n = (
  ground (arith, listed-append j s (k ∷ []), eq_iff j k, eq_iff k j),
  snoc-IsDistinct s k h (ground arith),
)

-- Picking or unpicking an account keeps the picks distinct.
pub toggle_pick-IsDistinct :
    (k : String) (s : List String) → IsDistinct s → IsDistinct (toggle_pick k s)
unfolding toggle_pick
toggle_pick-IsDistinct k s h = elim (Bool-cases (listed k s)) [
  | inl e ↦ rw e (keep-IsDistinct (λ i. not (str_eq i k)) s h)
  | inr e ↦ rw e (snoc-IsDistinct s k h e)
]

listed-without :
    (j k : String) (s : List String)
    → listed j (keep (λ i. not (str_eq i k)) s) ≡ (not (str_eq j k) && listed j s)
unfolding listed
listed-without j k [] = ground arith
listed-without j k (i ∷ s) =
    ground (arith, listed-without j k s, eq_iff i k, eq_iff i j, eq_iff j k, eq_iff k i, eq_iff j i)

-- A toggle changes whether that account is picked, and no other.
pub listed-toggle_pick :
    (j k : String) (s : List String)
    → listed j (toggle_pick k s) ≡ (if str_eq j k then not (listed j s) else listed j s)
unfolding toggle_pick
listed-toggle_pick j k s = elim (Bool-cases (listed k s)) [
  | inl e ↦ rw e (ground (arith, listed-without j k s, eq_iff j k))
  | inr e ↦ rw e (ground (arith, listed-append j s (k ∷ []), eq_iff j k, eq_iff k j))
]
