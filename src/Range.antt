-- ===== src/Range.antt =====
-- web/src/lib/range.ts: the time ranges of the usage charts, snapped to bucket boundaries. Instants
-- are milliseconds since 1970, so a window that would begin before 1970 begins at 0 here.
pub mod Snap
mod Tests
use vlessvmorectl.Base.{ℕ, ◌-◌, ◌*◌, ◌/◌, String, List, [], ◌∷◌}

pub data Bucket : Type 0 where
  hour day : Bucket

pub record Preset : Type 0 where
  pub label : String
  pub bucket : Bucket
  pub buckets : ℕ
  pub group : ℕ

abbrev pub presets : List Preset
presets =
    record { label = "24 hours"; bucket = hour; buckets = 24; group = 1 }
    ∷ record { label = "7 days"; bucket = hour; buckets = 24 * 7; group = 4 }
    ∷ record { label = "30 days"; bucket = day; buckets = 30; group = 1 }
    ∷ record { label = "90 days"; bucket = day; buckets = 90; group = 1 }
    ∷ []

pub record SnappedRange : Type 0 where
  pub from_unix : ℕ
  pub bucket : Bucket
  pub step_ms : ℕ
  pub from : ℕ
  pub end : ℕ

abbrev pub hour_ms : ℕ
hour_ms = 3_600_000

abbrev pub day_ms : ℕ
day_ms = 86_400_000

abbrev pub step_of : Bucket → ℕ
step_of hour = hour_ms
step_of day = day_ms

unfoldable pub snap_range : Preset → ℕ → SnappedRange
snap_range preset now =
    let step = step_of preset.bucket in
    let end = now / step * step in
    let from = end - (preset.buckets - 1) * step in
    record {
      from_unix = from / 1000;
      bucket = preset.bucket;
      step_ms = step;
      from = from;
      end = end;
    }
