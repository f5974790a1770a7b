-- ===== src/Tables/Subscribers.antt =====
-- The order of the subscribers' table.
use Prim.Native.Nat.{Ordering, compare}
use mathlib.Core.List.{Perm, Pairwise}
use mathlib.Core.List.Pairwise
use native.Mathlib.Decide.{dec_lt}
use vlessvmorectl.Base.{ℕ, String, ◌<◌, ◌≡◌, ◌⊎◌, inl, inr, false, Option, List, map, arith}
use vlessvmorectl.Types.{Server, Subscriber}
use vlessvmorectl.Format.{Count, TimeUnit}
use vlessvmorectl.Resolve.{NodeUsers}
use vlessvmorectl.Sorting.{IsConsistent, is_gt, chain}
use vlessvmorectl.Sorting.Laws.{Le, sort-perm, sort-IsSorted}
use vlessvmorectl.Sorting.Chain.{descending-IsConsistent, chain-IsConsistent}
use vlessvmorectl.Tables.{Row, compare_rows, summarise, rows}

module _ (date_parse : String → Option ℕ) (rtf_format : Count → TimeUnit → String) (now : ℕ)
    (servers : List Server) (nodes : List NodeUsers)
    (locale_compare : String → String → Ordering) where
  abbrev by_name : Row → Row → Ordering
  by_name a b = locale_compare a.subscriber.name b.subscriber.name

  abbrev pub MayPrecede : Row → Row → Type 0
  MayPrecede a b =
      (b.summary.problems < a.summary.problems)
      ⊎ ((a.summary.problems ≡ b.summary.problems) × (is_gt (by_name a b) ≡ false))

  abbrev more_problems : Row → Row → Ordering
  more_problems a b = compare b.summary.problems a.summary.problems

  may_precede : (a b : Row) → is_gt (chain more_problems by_name a b) ≡ false → MayPrecede a b
  may_precede a b h = elim (dec_lt b.summary.problems a.summary.problems) [
    | yes p ↦ inl p
    | no p ↦ inr (ground arith, ground arith)
  ]

  -- The table has a row for every subscriber, and where names are compared consistently, every row has
  -- more problems than those below it, or as many and a name that does not come after theirs.
  rows-ordered :
      (subscribers : List Subscriber)
      → IsConsistent by_name
      → Perm
          (rows date_parse rtf_format now servers nodes locale_compare subscribers)
          (map (summarise date_parse rtf_format now servers nodes) subscribers)
        × Pairwise MayPrecede
            (rows date_parse rtf_format now servers nodes locale_compare subscribers)
  unfolding rows compare_rows
  rows-ordered subscribers c = (
    sort-perm _ _,
    Pairwise.imp {R = Le (chain more_problems by_name)} {S = MayPrecede} may_precede (
        sort-IsSorted _
          (chain-IsConsistent more_problems by_name
            (descending-IsConsistent (λ (r : Row). r.summary.problems)) c)
          _),
  )
