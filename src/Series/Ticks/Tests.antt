-- ===== src/Series/Ticks/Tests.antt =====
-- The axis of a chart whose peak is 1.9 GB, and of smaller ones.
use vlessvmorectl.Base.{ℕ, ◌^◌, ◌≤◌, ◌≡◌, refl, some, List, [], ◌∷◌, ltb, if◌then◌else◌, arith}
use vlessvmorectl.Bytes.{format_bytes, parse_bytes}
use vlessvmorectl.Series.Ticks.{byte_ticks}
use vlessvmorectl.Series.Ticks.Honest.{pow-positive, IsHonest, byte_ticks-IsHonest}

-- the exponent of sizes below 1024 ^ 4
abbrev exponent : ℕ → ℕ
exponent n =
    if ltb n 1024 then 0 else if ltb n (1024 ^ 2) then 1 else if ltb n (1024 ^ 3) then 2 else 3

exponent_below : (n : ℕ) → 1 ≤ n → 1024 ^ exponent n ≤ n
exponent_below n h = ground arith

pow_below : (j : ℕ) → 1024 ^ exponent (2 ^ j) ≤ 2 ^ j
pow_below j = exponent_below (2 ^ j) (pow-positive j)

-- The step of 512 MB would have a tick of 1.5 GB, so it is doubled.
doubled : byte_ticks exponent 29 2_040_109_465 ≡ some (0 ∷ 1_073_741_824 ∷ 2_147_483_648 ∷ [])
unfolding byte_ticks format_bytes parse_bytes
doubled = refl

byte_ticks-IsHonest_example :
    (ticks : List ℕ) × (byte_ticks exponent 8 1000 ≡ some ticks) × IsHonest exponent 1000 ticks
byte_ticks-IsHonest_example = byte_ticks-IsHonest exponent 1000 (omega arith) pow_below 8
