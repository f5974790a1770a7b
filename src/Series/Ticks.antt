-- ===== src/Series/Ticks.antt =====
-- web/src/features/usage/series.ts: the ticks of a chart's byte axis. The step that byteTicks starts
-- from, `2 ** Math.ceil(Math.log2(max / count))`, is `2 ^ k` here with `k` a parameter, so it is a
-- whole number: a peak below `count` bytes, whose step would be a fraction, is left out.
pub mod Steps
pub mod Honest
mod Tests
use vlessvmorectl.Base.{
  ℕ, zero, suc, ◌+◌, ◌*◌, ◌^◌, Bool, true, false, ◌&&◌, not, Option, none, some, List, [], ◌∷◌,
  ◌++◌, length, ltb, leb, ◌==◌, if◌then◌else◌,
}
use vlessvmorectl.Bytes.{Codes, format_bytes, parse_bytes}

abbrev pub byte_tick_label : (exponent : ℕ → ℕ) → ℕ → Codes
byte_tick_label exponent v = format_bytes exponent v 0

-- The loop of `ticksUpTo` from `v` on, which is tick number `n`. Fuel above `max - v` is enough.
unfoldable pub ticks_from : (max step : ℕ) → ℕ → ℕ → ℕ → List ℕ
ticks_from max step zero n v = []
ticks_from max step (suc fuel) n v =
    let more = v ∷ ticks_from max step fuel (n + 1) (v + step) in
    if ltb v max then more else (n * step) ∷ []

unfoldable pub ticks_up_to : (max step : ℕ) → List ℕ
unfolding ticks_from
ticks_up_to max step = ticks_from max step (max + 1) 0 0

abbrev pub is_read_back : (exponent : ℕ → ℕ) → ℕ → Bool
is_read_back exponent v = elim (parse_bytes (byte_tick_label exponent v)) [
  | none ↦ false
  | some n ↦ n == v
]

unfoldable pub labels_exact : (exponent : ℕ → ℕ) → List ℕ → Bool
labels_exact exponent [] = true
labels_exact exponent (v ∷ ticks) = is_read_back exponent v && labels_exact exponent ticks

-- The `while` of `byteTicks`; `none` means that the fuel ran out.
unfoldable pub honest_ticks : (exponent : ℕ → ℕ) (max : ℕ) → ℕ → ℕ → Option (List ℕ)
unfolding ticks_up_to labels_exact
honest_ticks exponent max zero step = none
honest_ticks exponent max (suc fuel) step =
    let ticks = ticks_up_to max step in
    let rest = honest_ticks exponent max fuel (step * 2) in
    if ltb 2 (length ticks) && not (labels_exact exponent ticks) then rest else some ticks

unfoldable pub byte_ticks : (exponent : ℕ → ℕ) (k max : ℕ) → Option (List ℕ)
unfolding honest_ticks
byte_ticks exponent k max =
    let ticks = honest_ticks exponent max (max + 1) (2 ^ k) in
    if max == 0 then some (0 ∷ 1024 ∷ []) else ticks
