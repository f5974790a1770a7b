-- ===== src/Bytes/Tests.antt =====
-- Sizes that are printed and read.
use vlessvmorectl.Base.{ℕ, ◌≡◌, refl, ◌^◌, ltb, if◌then◌else◌, none, some, ◌*◌}
use vlessvmorectl.Bytes.{codes, format_bytes, parse_bytes}
use vlessvmorectl.Base.{◌%◌, ◌↔◌, ◌≤◌, ◌+◌}
use vlessvmorectl.Bytes.RoundTrip.{unit_size}
use vlessvmorectl.Bytes.Exact.{parse_bytes-format_bytes-eq_iff, parse_bytes-format_bytes_near}

-- the exponent of numbers below 1024 ^ 4
abbrev exponent : ℕ → ℕ
exponent n =
    if ltb n 1024 then 0 else if ltb n (1024 ^ 2) then 1 else if ltb n (1024 ^ 3) then 2 else 3

large : format_bytes exponent 1_503_238_553 1 ≡ codes "1.4 GB"
unfolding format_bytes
large = refl

halves : format_bytes exponent 1_610_612_736 0 ≡ codes "2 GB"
unfolding format_bytes
halves = refl

small : format_bytes exponent 512 1 ≡ codes "512 B"
unfolding format_bytes
small = refl

parsed : parse_bytes (codes " 1.5 TiB ") ≡ some 1_649_267_441_664
unfolding parse_bytes
parsed = refl

parsed_plain : parse_bytes (codes "500mb") ≡ some (500 * 1024 ^ 2)
unfolding parse_bytes
parsed_plain = refl

not_a_size : parse_bytes (codes "ten GB") ≡ none
unfolding parse_bytes
not_a_size = refl

lone_dot : parse_bytes (codes ".") ≡ none
unfolding parse_bytes
lone_dot = refl

parse_bytes-format_bytes-eq_iff_example :
    (parse_bytes (format_bytes exponent 2048 0) ≡ some 2048) ↔ (2048 % unit_size exponent 2048 ≡ 0)
parse_bytes-format_bytes-eq_iff_example = parse_bytes-format_bytes-eq_iff exponent 2048

parse_bytes-format_bytes_near_example :
    (m : ℕ) × (parse_bytes (format_bytes exponent 1_610_612_736 0) ≡ some m)
    × (2 * 1_610_612_736 ≤ 2 * m + unit_size exponent 1_610_612_736)
    × (2 * m ≤ 2 * 1_610_612_736 + unit_size exponent 1_610_612_736)
parse_bytes-format_bytes_near_example = parse_bytes-format_bytes_near exponent 1_610_612_736
