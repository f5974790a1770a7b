-- ===== src/Resolve.antt =====
-- web/src/features/subscribers/resolve.ts: a subscriber's entries joined against what the nodes have
-- told the panel, and the summary that the subscribers list shows. `NodeUsers` is the interface of
-- web/src/queries/hooks.ts. A `Map` is an association list in which a later entry replaces an earlier
-- one with its key.
pub mod Entries
pub mod States
pub mod Summary
mod Tests
use vlessvmorectl.Base.{
  ℕ, ◌+◌, String, Bool, true, false, Option, none, some, List, [], ◌∷◌, map, find, str_eq, is_some,
  or_default, lookup, insert, if◌then◌else◌,
}
use vlessvmorectl.Errors.{VlessFailure}
use vlessvmorectl.Types.{Server, VlessUser, SubscriberEntry, UsageSummary}
use vlessvmorectl.Format.{Count, TimeUnit, UserState, active, UserStateInput, user_state}

pub record NodeUsers : Type 0 where
  pub server : Server
  pub users : Option (List VlessUser)
  pub failure : Option VlessFailure

pub data NodeState : Type 0 where
  ok loading failed unconfigured : NodeState

pub record ResolvedEntry : Type 0 where
  pub entry : SubscriberEntry
  pub server : Option Server
  pub user : Option VlessUser
  pub node_state : NodeState

-- `new Map(xs.map((x) => [key(x), val(x)]))`: one `set` after another
unfoldable pub index_from {ℓ κ} :
    {A : Type ℓ} {V : Type κ}
    → (A → String)
    → (A → V)
    → List A
    → List (String × V)
    → List (String × V)
index_from key val [] m = m
index_from key val (x ∷ xs) m = index_from key val xs (insert (key x) (val x) m)

unfoldable pub server_index : List Server → List (String × Server)
server_index servers = index_from (λ s. s.id) (λ s. s) servers []

unfoldable pub user_index : List VlessUser → List (String × VlessUser)
user_index users = index_from (λ u. u.id) (λ u. u) users []

-- `n.users ? new Map(…) : null`
unfoldable pub node_index : NodeUsers → Option (List (String × VlessUser))
node_index n = elim n.users [ none ↦ none | some users ↦ some (user_index users) ]

unfoldable pub users_by_server : List NodeUsers → List (String × Option (List (String × VlessUser)))
users_by_server nodes = index_from (λ n. n.server.id) node_index nodes []

-- `node?.failure ? "failed" : "loading"` for the first node with the id
unfoldable pub missing_state : String → List NodeUsers → NodeState
missing_state id nodes = elim (find (λ n. str_eq n.server.id id) nodes) [
  | none ↦ loading
  | some n ↦ if is_some n.failure then failed else loading
]

-- `usersByServer.get(id)`: undefined and null are both no index
unfoldable pub find_index : String → List NodeUsers → Option (List (String × VlessUser))
unfolding users_by_server
find_index id nodes = or_default (lookup id (users_by_server nodes)) none

unfoldable pub resolve_entry : List Server → List NodeUsers → SubscriberEntry → ResolvedEntry
resolve_entry servers nodes entry = elim (lookup entry.server_id (server_index servers)) [
  | none ↦ record { entry = entry; server = none; user = none; node_state = unconfigured }
  | some server ↦ elim (find_index entry.server_id nodes) [
    | none ↦ record {
      entry = entry;
      server = some server;
      user = none;
      node_state = missing_state entry.server_id nodes;
    }
    | some index ↦ record {
      entry = entry;
      server = some server;
      user = lookup entry.vless_user_id index;
      node_state = ok;
    }
  ]
]

unfoldable pub resolve_entries :
    List SubscriberEntry → List Server → List NodeUsers → List ResolvedEntry
resolve_entries entries servers nodes = map (resolve_entry servers nodes) entries

pub record EntrySummary : Type 0 where
  pub problems : ℕ
  pub pending : Bool
  pub used : ℕ
  pub partial_usage : Bool

abbrev pub empty_summary : EntrySummary
empty_summary = record { problems = 0; pending = false; used = 0; partial_usage = false }

-- `VlessUser` satisfies `UserStateInput`.
abbrev pub state_input : VlessUser → UserStateInput
state_input u = record {
  enabled = u.enabled;
  disabled_reason = u.disabled_reason;
  expires_at = u.expires_at;
}

-- `u.usage?.window_total ?? 0`
unfoldable pub window_total : VlessUser → ℕ
window_total u = elim u.usage [ none ↦ 0 | some s ↦ s.window_total ]

unfoldable pub is_active : UserState → Bool
is_active active = true
is_active _ = false

module _ (date_parse : String → Option ℕ) (rtf_format : Count → TimeUnit → String) (now : ℕ) where
  -- the chain of tests on `nodeState`, `user` and the user's status
  judge : NodeState → Option VlessUser → EntrySummary → EntrySummary
  unfolding is_active
  judge unconfigured user t = record t { problems = t.problems + 1 }
  judge loading user t = record t { pending = true }
  judge failed user t = record t { pending = true }
  judge ok none t = record t { problems = t.problems + 1 }
  judge ok (some u) t =
      if is_active (user_state date_parse rtf_format (state_input u) now)
      then t
      else record t { problems = t.problems + 1 }

  add_usage : Option VlessUser → EntrySummary → EntrySummary
  unfolding window_total
  add_usage none t = record t { partial_usage = true }
  add_usage (some u) t = record t { used = t.used + window_total u }

  -- one round of the loop
  unfoldable pub tally : ResolvedEntry → EntrySummary → EntrySummary
  unfolding judge add_usage
  tally r t = add_usage r.user (judge r.node_state r.user t)

  summarise_from : EntrySummary → List ResolvedEntry → EntrySummary
  summarise_from t [] = t
  summarise_from t (r ∷ rs) = summarise_from (tally r t) rs

  unfoldable pub summarise_entries : List ResolvedEntry → EntrySummary
  unfolding summarise_from
  summarise_entries resolved = summarise_from empty_summary resolved
