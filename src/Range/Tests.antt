-- ===== src/Range/Tests.antt =====
-- A run of `snapRange`.
use vlessvmorectl.Base.{ℕ, ◌+◌, ◌*◌, ◌≡◌, refl}
use vlessvmorectl.Range.{hour, Preset, snap_range, hour_ms}

abbrev day_of_hours : Preset
day_of_hours = record { label = "24 hours"; bucket = hour; buckets = 24; group = 1 }

-- 100 hours and 17 minutes after 1970
abbrev instant : ℕ
instant = 100 * hour_ms + 17 * 60_000

snapped : (snap_range day_of_hours instant).from ≡ 77 * hour_ms
unfolding snap_range
snapped = refl
