-- ===== src/Overview.antt =====
-- web/src/routes/OverviewPage.tsx: the figures on the card of a node. `now` is the instant at which it is
-- drawn.
pub mod Figures
mod Tests
use vlessvmorectl.Base.{
  ℕ, ◌+◌, String, Bool, true, false, not, Option, none, some, List, [], ◌∷◌, length, keep, truthy,
  ◌==◌, if◌then◌else◌,
}
use vlessvmorectl.Types.{VlessUser, UsageSummary}
use vlessvmorectl.Format.{user_state, has_v2ray_api, TimeUnit, Count}
use vlessvmorectl.Resolve.{state_input, is_active}

-- The part of `ServerStatus` that a card reads
pub record ServerStatus : Type 0 where
  pub running : Bool
  pub last_error : Option String
  pub sing_box_version : Option String
  pub users : ℕ
  pub active_users : ℕ

unfoldable pub used_by : VlessUser → ℕ
used_by u = elim u.usage [ none ↦ 0 | some s ↦ s.total ]

-- `reduce`, with its sum so far
unfoldable pub traffic_from : ℕ → List VlessUser → ℕ
unfolding used_by
traffic_from n [] = n
traffic_from n (u ∷ users) = traffic_from (n + used_by u) users

-- What the card says: its badge, its two warnings and its figures
pub record ServerCard : Type 0 where
  pub has_running_badge : Bool
  pub lacks_counters : Bool
  pub generation_error : Option String
  pub active_users : ℕ
  pub users : ℕ
  pub traffic : ℕ
  pub problems : ℕ

unfoldable pub is_false : Option Bool → Bool
is_false none = false
is_false (some b) = not b

module _ (date_parse : String → Option ℕ) (rtf_format : Count → TimeUnit → String) (now : ℕ) where
  unfoldable pub is_problem : VlessUser → Bool
  unfolding is_active
  is_problem u = not (is_active (user_state date_parse rtf_format (state_input u) now))

  unfoldable pub server_card : ServerStatus → List VlessUser → ServerCard
  unfolding is_problem traffic_from is_false has_v2ray_api
  server_card status users = record {
    has_running_badge = status.running;
    lacks_counters = is_false (has_v2ray_api status.sing_box_version);
    generation_error = elim status.last_error [
      | none ↦ none
      | some e ↦ if truthy e then some e else none
    ];
    active_users = status.active_users;
    users = status.users;
    traffic = traffic_from 0 users;
    problems = length (keep is_problem users);
  }
