-- ===== src/AccessCard.antt =====
-- web/src/access/AccessEntryCard.tsx: what the holder of a share link sees of one account. `now` is the
-- instant at which it is drawn; what a time prints as is a parameter.
pub mod Credentials
mod Tests
use vlessvmorectl.Base.{
  ℕ, String, Bool, true, false, not, ◌&&◌, ◌||◌, Option, none, some, List, [], ◌∷◌, ◌++◌, truthy,
  if◌then◌else◌,
}
use vlessvmorectl.Format.{Count, TimeUnit, QuotaState, quota_state}
use vlessvmorectl.Bytes.{Codes, format_bytes}
use vlessvmorectl.QrMatrix.{Matrix}
use vlessvmorectl.Access.{
  Tone, AccessUsage, AccessEntryOk, AccessEntryUnavailable, AccessEntry, present, absent,
  EntryStatus, entry_status,
}

-- `a ? a : nothing` on a text that may be missing
abbrev pub shown_text : Option String → Option String
shown_text none = none
shown_text (some s) = if truthy s then some s else none

-- What the line of figures says of the data that was used
pub data UsedText : Type 0 where
  no_limit : (used : Codes) → UsedText
  of_limit : (used limit : Codes) → UsedText

-- The line of figures, and the part of the quota on the meter where there is one, as a fraction
pub record Figures : Type 0 where
  pub used_text : UsedText
  pub expires : Option String
  pub meter : Option (ℕ × ℕ)

-- A blurred text with the code that its button shows
pub record SecretLink : Type 0 where
  pub title : String
  pub secret : String
  pub code : Option Matrix

-- What `Connection` shows; `nothing` is the apology for having none of the three.
pub record Connection : Type 0 where
  pub set_up : Option String
  pub secret_links : List SecretLink
  pub nothing : Bool

pub record EntryCard : Type 0 where
  pub heading : String
  pub sub_heading : Option String
  pub badge : Tone × String
  pub notice : Option String
  pub figures : Option Figures
  pub connection : Option Connection

unfoldable pub entry_quota : AccessEntryOk → QuotaState
unfolding quota_state
entry_quota e =
    quota_state e.quota_bytes (elim e.usage [ none ↦ none | some u ↦ some u.window_total ])

unfoldable pub secret_link : (title : String) → Option String → Option Matrix → List SecretLink
secret_link title none code = []
secret_link title (some s) code =
    if truthy s then record { title = title; secret = s; code = code } ∷ [] else []

abbrev pub is_missing : Option String → Bool
is_missing none = true
is_missing (some s) = not (truthy s)

unfoldable pub connection_of : AccessEntryOk → Connection
unfolding secret_link
connection_of e = record {
  set_up = shown_text e.install_url;
  secret_links =
      secret_link "Subscription link" e.subscription_url e.subscription_qr
      ++ secret_link "One-off vless:// link" e.link e.qr;
  nothing = is_missing e.install_url && is_missing e.subscription_url && is_missing e.link;
}

module _ (exponent : ℕ → ℕ) (format_date_time : String → String) where
  unfoldable pub figures_of : AccessEntryOk → Figures
  unfolding entry_quota
  figures_of e =
      let q = entry_quota e in
      let used = format_bytes exponent q.used 1 in
      record {
        used_text =
            if q.unlimited then no_limit used else of_limit used (format_bytes exponent q.limit 1);
        expires = elim (shown_text e.expires_at) [
          | none ↦ none
          | some iso ↦ some (format_date_time iso)
        ];
        meter = if q.unlimited then none else some (q.fraction_num, q.fraction_den);
      }

  module _ (date_parse : String → Option ℕ) (rtf_format : Count → TimeUnit → String) (now : ℕ) where
    abbrev pub status_of : AccessEntry → EntryStatus
    unfolding entry_status
    status_of entry = entry_status date_parse rtf_format entry now

    unfoldable pub entry_card : AccessEntry → EntryCard
    unfolding figures_of connection_of entry_status
    entry_card (absent e) = record {
      heading = e.server_label;
      sub_heading = shown_text e.label;
      badge = ((status_of (absent e)).tone, (status_of (absent e)).label);
      notice = shown_text (status_of (absent e)).detail;
      figures = none;
      connection = none;
    }
    entry_card (present e) = record {
      heading = e.server_label;
      sub_heading = shown_text e.label;
      badge = ((status_of (present e)).tone, (status_of (present e)).label);
      notice = shown_text (status_of (present e)).detail;
      figures = some (figures_of e);
      connection = if (status_of (present e)).usable then some (connection_of e) else none;
    }
