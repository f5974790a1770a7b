-- ===== src/Access.antt =====
-- web/src/access/copy.ts and web/src/access/types.ts: what the share page says of an account, and the
-- tone of a row of web/src/routes/ServerPage.tsx. The QR codes and the usage of an entry, which the
-- status does not read, are left out of its type.
pub mod Agreement
mod Tests
use Prim.Native.String.{◌++◌}
use vlessvmorectl.Base.{ℕ, String, Bool, true, false, Option, none, some}
use vlessvmorectl.Types.{DisabledReason}
use vlessvmorectl.QrMatrix.{Matrix}
use vlessvmorectl.Format.{
  Count, TimeUnit, UserState, active, disabled, over_quota, expired, expiring, UserStateInput,
  user_state,
}

pub data Tone : Type 0 where
  ok warn danger muted accent : Tone

pub data Reason : Type 0 where
  unavailable removed unconfigured : Reason

pub record AccessUsage : Type 0 where
  pub window_up : ℕ
  pub window_down : ℕ
  pub window_total : ℕ
  pub quota_remaining : ℕ

pub record AccessEntryOk : Type 0 where
  pub id : String
  pub server_label : String
  pub label : Option String
  pub name : Option String
  pub enabled : Bool
  pub disabled_reason : Option DisabledReason
  pub expires_at : Option String
  pub quota_bytes : ℕ
  pub usage : Option AccessUsage
  pub link : Option String
  pub subscription_url : Option String
  pub install_url : Option String
  pub qr : Option Matrix
  pub subscription_qr : Option Matrix

pub record AccessEntryUnavailable : Type 0 where
  pub id : String
  pub server_label : String
  pub label : Option String
  pub reason : Reason

pub data AccessEntry : Type 0 where
  present : AccessEntryOk → AccessEntry
  absent : AccessEntryUnavailable → AccessEntry

pub record EntryStatus : Type 0 where
  pub tone : Tone
  pub label : String
  pub detail : Option String
  pub usable : Bool

-- the `switch` on the reason of an entry that is not available
unfoldable pub reason_status : Reason → EntryStatus
reason_status unavailable = record {
  tone = warn;
  label = "Temporarily unavailable";
  detail = some (
      "We couldn't reach this server just now. Your connection is probably still working — "
      ++ "this page just can't show its details. Try Refresh in a minute.");
  usable = false;
}
reason_status removed = record {
  tone = danger;
  label = "No longer available";
  detail = some "This connection has been removed.";
  usable = false;
}
reason_status unconfigured = record {
  tone = danger;
  label = "No longer available";
  detail = some "This server isn't set up any more. Ask whoever gave you this link.";
  usable = false;
}

-- the `switch` on the state of an entry that is available
unfoldable pub state_status : UserState → EntryStatus
state_status active = record { tone = ok; label = "Active"; detail = none; usable = true }
state_status (expiring label) = record {
  tone = warn;
  label = label;
  detail = some "Ask whoever set this up if you need it extended.";
  usable = true;
}
state_status expired = record {
  tone = danger;
  label = "Expired";
  detail = some "This connection has run out. Ask whoever set it up to renew it.";
  usable = true;
}
state_status over_quota = record {
  tone = danger;
  label = "Data limit reached";
  detail = some (
      "You've used all the data on this connection. It will start working again when "
      ++ "the limit resets, or when someone raises it.");
  usable = true;
}
state_status disabled = record {
  tone = muted;
  label = "Turned off";
  detail = some "This connection has been switched off.";
  usable = true;
}

-- `AccessEntryOk` satisfies `UserStateInput`.
abbrev pub entry_input : AccessEntryOk → UserStateInput
entry_input e = record {
  enabled = e.enabled;
  disabled_reason = e.disabled_reason;
  expires_at = e.expires_at;
}

module _ (date_parse : String → Option ℕ) (rtf_format : Count → TimeUnit → String) where
  unfoldable pub entry_status : AccessEntry → ℕ → EntryStatus
  unfolding reason_status state_status
  entry_status (absent e) now = reason_status e.reason
  entry_status (present e) now = state_status (user_state date_parse rtf_format (entry_input e) now)

-- the tone of a row of the panel's user table
unfoldable pub row_tone : UserState → Tone
row_tone active = ok
row_tone (expiring label) = warn
row_tone disabled = muted
row_tone _ = danger
