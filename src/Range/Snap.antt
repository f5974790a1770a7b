-- ===== src/Range/Snap.antt =====
-- The alignment and the stability of `snapRange` in web/src/lib/range.ts.
use vlessvmorectl.Base.{ℕ, ◌+◌, ◌-◌, ◌*◌, ◌/◌, ◌%◌, ◌≤◌, ◌<◌, ◌≡◌, arith}
use vlessvmorectl.Range.{Bucket, hour, day, Preset, snap_range, step_of}

grid :
    (b : Bucket) (n now : ℕ)
    → n * step_of b ≤ now / step_of b * step_of b
    → (now / step_of b * step_of b ≤ now)
      × (now < now / step_of b * step_of b + step_of b)
      × (now / step_of b * step_of b % step_of b ≡ 0)
      × ((now / step_of b * step_of b - n * step_of b) % step_of b ≡ 0)
      × (now / step_of b * step_of b - n * step_of b + n * step_of b ≡ now / step_of b * step_of b)
      × ((now / step_of b * step_of b - n * step_of b) / 1000 * 1000
          ≡ now / step_of b * step_of b - n * step_of b)
grid hour n now h = omega arith
grid day n now h = omega arith

module _ (p : Preset) (now : ℕ) where
  -- The current bucket holds now, and a window that begins after 1970 is a whole number of buckets
  -- on the grid of the node, which counts buckets from 1970, with a start of whole seconds.
  pub snap_range_grid :
      (p.buckets - 1) * step_of p.bucket ≤ (snap_range p now).end
      → ((snap_range p now).end ≤ now)
        × (now < (snap_range p now).end + (snap_range p now).step_ms)
        × ((snap_range p now).end % (snap_range p now).step_ms ≡ 0)
        × ((snap_range p now).from % (snap_range p now).step_ms ≡ 0)
        × ((snap_range p now).from + (p.buckets - 1) * (snap_range p now).step_ms
            ≡ (snap_range p now).end)
        × ((snap_range p now).from_unix * 1000 ≡ (snap_range p now).from)
  unfolding snap_range
  snap_range_grid h = grid p.bucket (p.buckets - 1) now h

same_bucket :
    (b : Bucket) (now later : ℕ)
    → now / step_of b * step_of b ≤ later
    → later < now / step_of b * step_of b + step_of b
    → now / step_of b ≡ later / step_of b
same_bucket hour now later h k = omega arith
same_bucket day now later h k = omega arith

-- Until its current bucket has passed a range does not change, so the request for it stays the same.
snap_range_stable :
    (p : Preset) (now later : ℕ)
    → (snap_range p now).end ≤ later
    → later < (snap_range p now).end + (snap_range p now).step_ms
    → snap_range p later ≡ snap_range p now
unfolding snap_range
snap_range_stable p now later h k = cc (same_bucket p.bucket now later h k)
