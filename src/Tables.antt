-- ===== src/Tables.antt =====
-- The tables of web/src/routes/ServerPage.tsx (which users it shows, and in which order) and of
-- web/src/routes/SubscribersPage.tsx. `toLowerCase`, `localeCompare`, the clock and `Date.parse` are
-- parameters.
pub mod Users
pub mod Subscribers
mod Tests
use Prim.Native.Nat.{Ordering, compare}
use vlessvmorectl.Base.{
  ℕ, suc, String, Bool, not, ◌||◌, Option, none, some, List, [], ◌∷◌, map, keep, any, length,
  str_eq, trim, truthy, includes, or_default, if◌then◌else◌,
}
use vlessvmorectl.Types.{Server, Subscriber, VlessUser}
use vlessvmorectl.Format.{Count, TimeUnit, user_state}
use vlessvmorectl.Resolve.{
  NodeUsers, EntrySummary, state_input, is_active, resolve_entries, summarise_entries,
}
use vlessvmorectl.Sorting.{chain, sort}

module _ (to_lower_case : String → String) where
  unfoldable pub matches_filter : String → VlessUser → Bool
  matches_filter q u =
      includes (to_lower_case u.name) q || includes (to_lower_case (or_default u.note "")) q

  -- `matched`: with nothing typed every user.
  unfoldable pub matched : String → List VlessUser → List VlessUser
  unfolding matches_filter
  matched filter users =
      let q = to_lower_case (trim filter) in
      if truthy q then keep (matches_filter q) users else users

module _ (date_parse : String → Option ℕ) (rtf_format : Count → TimeUnit → String) (now : ℕ) where
  unfoldable pub rank : VlessUser → ℕ
  rank u = if is_active (user_state date_parse rtf_format (state_input u) now) then 1 else 0

module _ (date_parse : String → Option ℕ) (rtf_format : Count → TimeUnit → String) (now : ℕ)
    (locale_compare : String → String → Ordering) where
  -- `rank(a) - rank(b) || a.name.localeCompare(b.name)`
  unfoldable pub compare_users : VlessUser → VlessUser → Ordering
  compare_users =
      chain (λ a b. compare (rank date_parse rtf_format now a) (rank date_parse rtf_format now b))
        (λ a b. locale_compare a.name b.name)

  unfoldable pub shown : (String → String) → String → List VlessUser → List VlessUser
  shown to_lower_case filter users = sort compare_users (matched to_lower_case filter users)

-- A row of the subscribers' table: the summary of the connections, and how many servers they are on.
pub record Row : Type 0 where
  pub subscriber : Subscriber
  pub summary : EntrySummary
  pub servers : ℕ

-- `new Set(ids).size`
unfoldable pub distinct : List String → ℕ
distinct [] = 0
distinct (id ∷ ids) =
    let rest = distinct ids in if any (λ other. str_eq other id) ids then rest else suc rest

-- The sign of the comparator of the rows: more problems first, then by name.
unfoldable pub compare_rows : (String → String → Ordering) → Row → Row → Ordering
compare_rows locale_compare =
    chain (λ a b. compare b.summary.problems a.summary.problems)
      (λ a b. locale_compare a.subscriber.name b.subscriber.name)

-- `summarise` of the page, and the rows in the order that they are shown in.
module _ (date_parse : String → Option ℕ) (rtf_format : Count → TimeUnit → String) (now : ℕ)
    (servers : List Server) (nodes : List NodeUsers) where
  unfoldable pub summarise : Subscriber → Row
  unfolding distinct
  summarise s = record {
    subscriber = s;
    summary = summarise_entries date_parse rtf_format now (resolve_entries s.entries servers nodes);
    servers = distinct (map (λ e. e.server_id) s.entries);
  }

  unfoldable pub rows : (String → String → Ordering) → List Subscriber → List Row
  unfolding compare_rows summarise
  rows locale_compare subscribers = sort (compare_rows locale_compare) (map summarise subscribers)
