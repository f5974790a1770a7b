-- ===== src/Tables/Users.antt =====
-- The users that the page of a node shows.
use Prim.Native.Nat.{Ordering, compare}
use mathlib.Core.List.{Perm, Mem}
use vlessvmorectl.Base.{
  ℕ, String, ◌≡◌, Bool, not, Option, List, ◌++◌, keep, trim, truthy, Bool-cases, inl, inr,
}
use vlessvmorectl.Types.{VlessUser}
use vlessvmorectl.Format.{Count, TimeUnit, user_state}
use vlessvmorectl.Resolve.{state_input, is_active}
use vlessvmorectl.Sorting.{IsConsistent, sort}
use vlessvmorectl.Sorting.Unique.{Distinguishes, sort-eq_of_perm}
use vlessvmorectl.Sorting.Keep.{keep-perm, mem-keep}
use vlessvmorectl.Sorting.Chain.{ascending-IsConsistent, chain-IsConsistent, chain-eq, sort-grouped}
use vlessvmorectl.Tables.{matches_filter, matched, rank, compare_users, shown}

-- The filter looks at the users one by one.
matched-perm :
    (to_lower_case : String → String) (filter : String) (l r : List VlessUser)
    → Perm l r
    → Perm (matched to_lower_case filter l) (matched to_lower_case filter r)
unfolding matched
matched-perm to_lower_case filter l r p =
    let q = to_lower_case (trim filter) in
    elim (Bool-cases (truthy q)) [
      | inl e ↦ rw e (keep-perm (matches_filter to_lower_case q) l r p)
      | inr e ↦ rw e p
    ]

mem-matched :
    (to_lower_case : String → String) (filter : String) (l : List VlessUser) (u : VlessUser)
    → Mem u (matched to_lower_case filter l)
    → Mem u l
unfolding matched
mem-matched to_lower_case filter l u =
    let q = to_lower_case (trim filter) in
    elim (Bool-cases (truthy q)) [
      | inl e ↦ rw e (mem-keep (matches_filter to_lower_case q) l u)
      | inr e ↦ rw e (λ m. m)
    ]

module _ (date_parse : String → Option ℕ) (rtf_format : Count → TimeUnit → String) (now : ℕ)
    (locale_compare : String → String → Ordering) where
  -- Whether nothing about the user needs attention.
  abbrev pub is_quiet : VlessUser → Bool
  is_quiet u = is_active (user_state date_parse rtf_format (state_input u) now)

  abbrev pub by_name : VlessUser → VlessUser → Ordering
  by_name a b = locale_compare a.name b.name

  -- The users whose state is not "active" stand first, and within each of the two groups the users are
  -- sorted by name.
  shown-sorted_groups :
      (to_lower_case : String → String) (filter : String) (users : List VlessUser)
      → shown date_parse rtf_format now locale_compare to_lower_case filter users
        ≡ sort by_name (keep (λ u. not (is_quiet u)) (matched to_lower_case filter users))
          ++ sort by_name (keep is_quiet (matched to_lower_case filter users))
  unfolding shown compare_users rank
  shown-sorted_groups to_lower_case filter users =
      sort-grouped is_quiet by_name (matched to_lower_case filter users)

  abbrev by_attention : VlessUser → VlessUser → Ordering
  by_attention a b = compare (rank date_parse rtf_format now a) (rank date_parse rtf_format now b)

  -- Two answers of the node with the same users show the same table, whatever the order of the users in
  -- the answers, where names are compared consistently and no two users of the node have names that
  -- compare equal.
  pub shown-eq_of_perm :
      (to_lower_case : String → String) (filter : String) (l r : List VlessUser)
      → IsConsistent by_name
      → Perm l r
      → Distinguishes by_name l
      → shown date_parse rtf_format now locale_compare to_lower_case filter l
        ≡ shown date_parse rtf_format now locale_compare to_lower_case filter r
  unfolding shown compare_users
  shown-eq_of_perm to_lower_case filter l r c p d =
      sort-eq_of_perm _
        (chain-IsConsistent by_attention by_name
          (ascending-IsConsistent (rank date_parse rtf_format now)) c)
        (matched to_lower_case filter l) (matched to_lower_case filter r)
        (matched-perm to_lower_case filter l r p)
        (λ a b m n e.
          d a b (mem-matched to_lower_case filter l a m) (mem-matched to_lower_case filter l b n)
            (chain-eq by_attention by_name a b e))
