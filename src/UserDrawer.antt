-- ===== src/UserDrawer.antt =====
-- web/src/features/users/UserDrawer.tsx: the drawer of a user, but for its Details form, its holders and
-- its columns of traffic, which UserDetails, Holders and UsageChart are about. Dates and what they
-- print as are the platform's.
pub mod Expiry
pub mod Connection
mod Tests
use vlessvmorectl.Base.{
  ℕ, String, Bool, true, false, not, ◌||◌, Option, none, some, List, [], ◌∷◌, ◌++◌, str_eq, truthy,
  or_default, if◌then◌else◌,
}
use vlessvmorectl.Types.{VlessUser, UsageSummary}
use vlessvmorectl.Patch.{Tri, clear, set, UserPatchFields, enabled_patch}
use vlessvmorectl.Bytes.{Codes, format_bytes}
use vlessvmorectl.Format.{UserState, active, expiring, QuotaState, quota_state}
use vlessvmorectl.QrMatrix.{Matrix}

pub data BadgeTone : Type 0 where
  ok warn danger : BadgeTone

unfoldable pub state_tone : UserState → BadgeTone
state_tone active = ok
state_tone (expiring label) = warn
state_tone _ = danger

-- The patch of Enable and Disable
unfoldable pub toggle_patch : {Date : Type 0} → VlessUser → UserPatchFields Date
unfolding enabled_patch
toggle_patch user = enabled_patch (not user.enabled)

abbrev pub window_total_of : VlessUser → Option ℕ
window_total_of user = elim user.usage [ none ↦ none | some u ↦ some u.window_total ]

abbrev pub total_of : VlessUser → ℕ
total_of user = elim user.usage [ none ↦ 0 | some u ↦ u.total ]

unfoldable pub drawer_quota : VlessUser → QuotaState
unfolding quota_state
drawer_quota user = quota_state user.quota_bytes (window_total_of user)

-- Whether the drawer has the button Reset usage
unfoldable pub can_reset : VlessUser → Bool
unfolding drawer_quota
can_reset user = not (drawer_quota user).unlimited

-- The text of a tile: words or a size
pub data TileText : Type 0 where
  words : String → TileText
  size : Codes → TileText

pub record StatTile : Type 0 where
  pub label : String
  pub value : TileText
  pub hint : Option Codes

module _ (exponent : ℕ → ℕ) (format_date_time : String → String) where
  unfoldable pub tiles : VlessUser → List StatTile
  unfolding drawer_quota
  tiles user =
      let quota = drawer_quota user in
      record {
        label = "This window";
        value = size (format_bytes exponent (or_default (window_total_of user) 0) 1);
        hint = none;
      }
      ∷ record {
        label = "Lifetime";
        value = size (format_bytes exponent (total_of user) 1);
        hint = none;
      }
      ∷ record {
        label = "Quota left";
        value =
            if quota.unlimited
            then words "Unlimited"
            else size (format_bytes exponent quota.remaining 1);
        hint = if quota.unlimited then none else some (format_bytes exponent quota.limit 1);
      }
      ∷ record {
        label = "Expires";
        value = elim user.expires_at [
          | none ↦ words "Never"
          | some iso ↦ words (if truthy iso then format_date_time iso else "Never")
        ];
        hint = none;
      }
      ∷ []

-- `ExpirySection`; `first_ten` is `.slice(0, 10)` and `midnight` is `new Date` of a day at 00:00 UTC.
module _ (first_ten : String → String) where
  unfoldable pub current_day : Option String → String
  current_day none = ""
  current_day (some iso) = if truthy iso then first_ten iso else ""

  unfoldable pub set_disabled : (busy : Bool) → (value : String) → Option String → Bool
  unfolding current_day
  set_disabled busy value expires_at =
      busy || not (truthy value) || str_eq value (current_day expires_at)

unfoldable pub never_disabled : (busy : Bool) → Option String → Bool
never_disabled busy none = true
never_disabled busy (some iso) = busy || not (truthy iso)

module _ {Date : Type 0} where
  -- `new UserPatch({ expiresAt: tri })`
  unfoldable pub expiry_patch : Tri Date → UserPatchFields Date
  expiry_patch tri = record {
    name = none;
    uuid = none;
    enabled = none;
    quota_bytes = none;
    note = none;
    expires_at = some tri;
  }

  unfoldable pub set_expiry : (midnight : String → Date) → (value : String) → UserPatchFields Date
  unfolding expiry_patch
  set_expiry midnight value = expiry_patch (set (midnight value))

  unfoldable pub never_expire : UserPatchFields Date
  unfolding expiry_patch
  never_expire = expiry_patch clear

-- `UserLink` of web/src/api/types.ts, as far as the drawer reads it
pub record UserLink : Type 0 where
  pub link : String
  pub qr : Option Matrix
  pub subscription_url : Option String
  pub subscription_qr : Option Matrix
  pub install_url : Option String

-- A secret with its copy button, and the code that its action shows
pub record Secret : Type 0 where
  pub label : String
  pub value : String
  pub code : Option Matrix

unfoldable pub optional_secret : (label : String) → Option String → Option Matrix → List Secret
optional_secret label none code = []
optional_secret label (some value) code =
    if truthy value then record { label = label; value = value; code = code } ∷ [] else []

unfoldable pub secrets : UserLink → List Secret
unfolding optional_secret
secrets l =
    optional_secret "Subscription URL" l.subscription_url l.subscription_qr
    ++ (record { label = "vless:// link"; value = l.link; code = l.qr }
        ∷ optional_secret "Install page" l.install_url none)

-- The state of `Credentials`, with that of the mutation that rotates the address
pub record ConnectionState : Type 0 where
  pub confirm_rotate : Bool
  pub shown_code : Option Matrix
  pub rotating : Bool
  pub rotated : Bool

abbrev pub opened_connection : ConnectionState
opened_connection = record {
  confirm_rotate = false;
  shown_code = none;
  rotating = false;
  rotated = false;
}

-- A press of Rotate, of the buttons of its confirmation, of a code and of its closing, and what the
-- request comes to
pub data ConnectionEvent : Type 0 where
  press_rotate cancel_rotate confirm_rotation rotation_done rotation_failed : ConnectionEvent
  show_code : Matrix → ConnectionEvent
  close_code : ConnectionEvent

unfoldable pub connection_step : ConnectionEvent → ConnectionState → ConnectionState
connection_step press_rotate c = if c.rotating then c else record c { confirm_rotate = true }
connection_step cancel_rotate c = record c { confirm_rotate = false }
connection_step confirm_rotation c =
    if c.confirm_rotate
    then record c { confirm_rotate = false; rotating = true; rotated = false }
    else c
connection_step rotation_done c =
    if c.rotating then record c { rotating = false; rotated = true } else c
connection_step rotation_failed c =
    if c.rotating then record c { rotating = false; rotated = false } else c
connection_step (show_code m) c = record c { shown_code = some m }
connection_step close_code c = record c { shown_code = none }
