-- ===== src/Format.antt =====
-- web/src/lib/format.ts: what a user's status and quota are, and what a node is called. Instants are
-- milliseconds since 1970; `Date.parse` and `Intl.RelativeTimeFormat` are parameters.
pub mod Status
pub mod Relative
mod Tests
use Prim.Native.String.{◌++◌}
use vlessvmorectl.Base.{
  ℕ, ◌+◌, ◌-◌, ◌*◌, ◌/◌, String, Bool, true, false, not, Option, none, some, List, [], ◌∷◌, ltb,
  leb, min, str_eq, trim, includes, truthy, or_default, or_else, if◌then◌else◌,
}
use vlessvmorectl.Types.{DisabledReason, quota}

abbrev pub day_ms : ℕ
day_ms = 86_400_000

pub data TimeUnit : Type 0 where
  year month day hour minute : TimeUnit

-- A rounded number of units, with its sign.
pub data Count : Type 0 where
  ahead ago : ℕ → Count

abbrev pub units : List (TimeUnit × ℕ)
units =
    (year, 365 * day_ms)
    ∷ (month, 30 * day_ms)
    ∷ (day, day_ms)
    ∷ (hour, 3_600_000)
    ∷ (minute, 60_000)
    ∷ []

-- `Math.round(diff / ms)` for `diff = then - now`: a half is rounded up, also below zero.
unfoldable pub round_units : ℕ → ℕ → ℕ → Count
round_units at now ms =
    if leb now at
    then ahead ((2 * (at - now) + ms) / (2 * ms))
    else ago ((2 * (now - at) + (ms - 1)) / (2 * ms))

-- `Math.abs(diff)`
abbrev pub gap : ℕ → ℕ → ℕ
gap at now = if leb now at then at - now else now - at

-- The loop over `units`; `none` is the fall through to "just now".
unfoldable pub pick_unit : ℕ → ℕ → List (TimeUnit × ℕ) → Option (TimeUnit × Count)
unfolding round_units
pick_unit at now [] = none
pick_unit at now ((unit, ms) ∷ rest) =
    if leb ms (gap at now) then some (unit, round_units at now ms) else pick_unit at now rest

pub data UserState : Type 0 where
  active disabled over_quota expired : UserState
  expiring : String → UserState

-- The shape that the classifiers read: `UserStateInput`.
pub record UserStateInput : Type 0 where
  pub enabled : Bool
  pub disabled_reason : Option DisabledReason
  pub expires_at : Option String

-- The branch of `userState` for a user that is switched off.
unfoldable pub off_state : Option DisabledReason → UserState
off_state (some quota) = over_quota
off_state (some DisabledReason.expired) = expired
off_state none = disabled

module _ (date_parse : String → Option ℕ) (rtf_format : Count → TimeUnit → String) where
  relative_text : Option (TimeUnit × Count) → String
  relative_text none = "just now"
  relative_text (some (unit, n)) = rtf_format n unit

  -- `formatRelative` on a text that has parsed, or not
  relative_at : ℕ → Option ℕ → String
  unfolding relative_text pick_unit
  relative_at now none = "—"
  relative_at now (some at) = relative_text (pick_unit at now units)

  unfoldable pub format_relative : Option String → ℕ → String
  unfolding relative_at
  format_relative none now = "never"
  format_relative (some iso) now = if truthy iso then relative_at now (date_parse iso) else "never"

  -- The branch of `userState` for an enabled user whose expiry is an instant.
  expiry_state : String → ℕ → ℕ → UserState
  expiry_state iso at now =
      if leb at now
      then expired
      else if ltb (at - now) (7 * day_ms)
      then expiring ("Expires " ++ format_relative (some iso) now)
      else active

  enabled_state : Option String → ℕ → UserState
  unfolding expiry_state
  enabled_state none now = active
  enabled_state (some iso) now =
      if truthy iso
      then elim (date_parse iso) [ none ↦ active | some at ↦ expiry_state iso at now ]
      else active

  unfoldable pub user_state : UserStateInput → ℕ → UserState
  unfolding enabled_state off_state
  user_state u now =
      if not u.enabled then off_state u.disabled_reason else enabled_state u.expires_at now

-- A share of the quota, as the fraction `num / den`.
pub record QuotaState : Type 0 where
  pub unlimited : Bool
  pub used : ℕ
  pub limit : ℕ
  pub fraction_num : ℕ
  pub fraction_den : ℕ
  pub remaining : ℕ

-- `Math.min(1, used / limit)` is `min used limit` over `limit`, and `Math.max(0, limit - used)` is
-- the subtraction on ℕ.
unfoldable pub quota_state : ℕ → Option ℕ → QuotaState
quota_state quota_bytes window_total =
    let used = or_default window_total 0 in
    if leb quota_bytes 0
    then record {
      unlimited = true;
      used = used;
      limit = 0;
      fraction_num = 0;
      fraction_den = 1;
      remaining = 0;
    }
    else record {
      unlimited = false;
      used = used;
      limit = quota_bytes;
      fraction_num = min used quota_bytes;
      fraction_den = quota_bytes;
      remaining = quota_bytes - used;
    }

pub record ServerName : Type 0 where
  pub name : Option String
  pub host : String

-- `info.name?.trim() || info.host`
unfoldable pub server_label : ServerName → String
server_label info = elim info.name [ none ↦ info.host | some n ↦ or_else (trim n) info.host ]

unfoldable pub has_server_name : ServerName → Bool
unfolding server_label
has_server_name info = not (str_eq (server_label info) info.host)

unfoldable pub has_v2ray_api : Option String → Option Bool
has_v2ray_api none = none
has_v2ray_api (some version) =
    if truthy version then some (includes version "with_v2ray_api") else none
