-- ===== src/Resolve/Summary.antt =====
-- `summariseEntries` of web/src/features/subscribers/resolve.ts against counts over the whole list.
use vlessvmorectl.Base.{
  ℕ, ◌+◌, String, Bool, true, false, not, ◌||◌, Option, none, some, List, [], ◌∷◌, ◌≡◌, map, any,
  sum, is_some, arith, if◌then◌else◌,
}
use vlessvmorectl.Format.{Count, TimeUnit, user_state}
use vlessvmorectl.Types.{VlessUser}
use vlessvmorectl.Resolve.{
  NodeState, ok, loading, failed, unconfigured, ResolvedEntry, EntrySummary, state_input,
  window_total, is_active, tally, empty_summary, summarise_from, summarise_entries,
}

-- A node that has not answered, or has answered badly.
abbrev pub is_waiting : NodeState → Bool
is_waiting loading = true
is_waiting failed = true
is_waiting _ = false

-- The traffic that an entry is known to have had.
abbrev pub usage_of : Option VlessUser → ℕ
usage_of none = 0
usage_of (some u) = window_total u

module _ (date_parse : String → Option ℕ) (rtf_format : Count → TimeUnit → String) (now : ℕ) where
  -- An entry to act on: its server is not managed, its account is gone, or its user is not active.
  abbrev pub is_problem : NodeState → Option VlessUser → Bool
  is_problem unconfigured user = true
  is_problem loading user = false
  is_problem failed user = false
  is_problem ok none = true
  is_problem ok (some u) = not (is_active (user_state date_parse rtf_format (state_input u) now))

  abbrev pub problem_count : List ResolvedEntry → ℕ
  problem_count rs = sum (map (λ r. if is_problem r.node_state r.user then 1 else 0) rs)

  abbrev pub add_counts : EntrySummary → List ResolvedEntry → EntrySummary
  add_counts t rs = record {
    problems = t.problems + problem_count rs;
    pending = t.pending || any (λ r. is_waiting r.node_state) rs;
    used = t.used + sum (map (λ r. usage_of r.user) rs);
    partial_usage = t.partial_usage || any (λ r. not (is_some r.user)) rs;
  }

  summarise_from-add_counts :
      (t : EntrySummary) (rs : List ResolvedEntry)
      → summarise_from date_parse rtf_format now t rs ≡ add_counts t rs
  unfolding summarise_from tally
  summarise_from-add_counts t [] = ground arith
  summarise_from-add_counts t (r ∷ rs) =
      ground (arith, summarise_from-add_counts (tally date_parse rtf_format now r t) rs)

  -- The summary of a subscriber counts the entries to act on, is pending when some entry's node has
  -- not answered or has failed, adds up the known traffic, and calls it partial when some entry has
  -- no account to count.
  summarise_entries_counts :
      (rs : List ResolvedEntry)
      → ((summarise_entries date_parse rtf_format now rs).problems ≡ problem_count rs)
        × ((summarise_entries date_parse rtf_format now rs).pending
            ≡ any (λ r. is_waiting r.node_state) rs)
        × ((summarise_entries date_parse rtf_format now rs).used
            ≡ sum (map (λ r. usage_of r.user) rs))
        × ((summarise_entries date_parse rtf_format now rs).partial_usage
            ≡ any (λ r. not (is_some r.user)) rs)
  unfolding summarise_entries
  summarise_entries_counts rs =
      let e = summarise_from-add_counts empty_summary rs in
      (ground arith, ground arith, ground arith, ground arith)
