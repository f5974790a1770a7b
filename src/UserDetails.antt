-- ===== src/UserDetails.antt =====
-- The Details form of web/src/features/users/UserDrawer.tsx: what it starts with, when it counts as
-- changed, when Save can be pressed and which patch that asks for.
pub mod Save
pub mod Quota
mod Tests
use vlessvmorectl.Base.{
  ℕ, String, Bool, true, false, not, ◌||◌, Option, none, some, [], ltb, ◌==◌, str_eq, trim, truthy,
  is_some, or_default, if◌then◌else◌,
}
use vlessvmorectl.Types.{VlessUser}
use vlessvmorectl.Patch.{UserPatchFields}
use vlessvmorectl.Bytes.{Codes, format_bytes, parse_bytes}

-- The texts of the fields; the quota's is a list of character codes.
pub record Form : Type 0 where
  pub name : String
  pub note : String
  pub quota : Codes

unfoldable pub initial_quota : (exponent : ℕ → ℕ) → VlessUser → Codes
initial_quota exponent user =
    if ltb 0 user.quota_bytes then format_bytes exponent user.quota_bytes 0 else []

-- The three `useState`, and what Reset goes back to.
unfoldable pub initial_form : (exponent : ℕ → ℕ) → VlessUser → Form
unfolding initial_quota
initial_form exponent user = record {
  name = user.name;
  note = or_default user.note "";
  quota = initial_quota exponent user;
}

abbrev pub is_changed : Option ℕ → ℕ → Bool
is_changed none stored = false
is_changed (some n) stored = not (n == stored)

module _ (user : VlessUser) (form : Form) where
  unfoldable pub name_changed : Bool
  name_changed = not (str_eq (trim form.name) user.name)

  unfoldable pub note_changed : Bool
  note_changed = not (str_eq (trim form.note) (or_default user.note ""))

  unfoldable pub quota_changed : Bool
  quota_changed = is_changed (parse_bytes form.quota) user.quota_bytes

  unfoldable pub dirty : Bool
  unfolding name_changed note_changed quota_changed
  dirty = name_changed || note_changed || quota_changed

  -- The patch of `save`.
  unfoldable pub save : {Date : Type 0} → UserPatchFields Date
  unfolding name_changed note_changed quota_changed
  save = record {
    name = if name_changed then some (trim form.name) else none;
    uuid = none;
    enabled = none;
    quota_bytes = if quota_changed then parse_bytes form.quota else none;
    note = if note_changed then some (trim form.note) else none;
    expires_at = none;
  }

  -- The `disabled` of the Save button.
  unfoldable pub save_disabled : (pending : Bool) → Bool
  unfolding dirty
  save_disabled pending =
      not dirty
      || not (is_some (parse_bytes form.quota))
      || not (truthy (trim form.name))
      || pending
