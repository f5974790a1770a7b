-- ===== src/Access/Agreement.antt =====
-- The share page of web/src/access/copy.ts against the panel's user table.
use vlessvmorectl.Base.{ℕ, String, ◌≡◌, ◌≢◌, sym, false, Option, arith}
use vlessvmorectl.Types.{VlessUser}
use vlessvmorectl.Resolve.{state_input}
use vlessvmorectl.Format.{Count, TimeUnit, UserState, user_state}
use vlessvmorectl.Access.{
  ok, AccessEntryOk, AccessEntryUnavailable, present, absent, entry_input, entry_status, row_tone,
  state_status, reason_status,
}

-- The facts on which the status of an account rests are the same in both views.
abbrev pub SameAccount : AccessEntryOk → VlessUser → Type 0
SameAccount e u =
    (e.enabled ≡ u.enabled)
    × (e.disabled_reason ≡ u.disabled_reason)
    × (e.expires_at ≡ u.expires_at)

state_status-row_tone : (s : UserState) → (state_status s).tone ≡ row_tone s
unfolding state_status row_tone
state_status-row_tone s = ground arith

module _ (date_parse : String → Option ℕ) (rtf_format : Count → TimeUnit → String) (now : ℕ) where
  -- The share page and the panel never disagree about an account: at one instant, for the same
  -- facts, the tone on the share page is the tone of the account's row in the panel.
  entry_status-row_tone :
      (e : AccessEntryOk) (u : VlessUser)
      → SameAccount e u
      → (entry_status date_parse rtf_format (present e) now).tone
        ≡ row_tone (user_state date_parse rtf_format (state_input u) now)
  unfolding entry_status
  entry_status-row_tone e u (a, b, c) =
      rw (sym a, sym b, sym c)
        (state_status-row_tone (user_state date_parse rtf_format (entry_input e) now))

  -- An account whose data the page could not get is never shown as fine.
  pub entry_status-absent :
      (e : AccessEntryUnavailable)
      → ((entry_status date_parse rtf_format (absent e) now).tone ≢ ok)
        × ((entry_status date_parse rtf_format (absent e) now).usable ≡ false)
  unfolding entry_status reason_status
  entry_status-absent e = (λ h. ground arith, ground arith)
