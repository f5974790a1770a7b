-- ===== src/Format/Status.antt =====
-- What `userState` and `quotaState` of web/src/lib/format.ts decide.
use vlessvmorectl.Base.{
  ℕ, ◌+◌, ◌*◌, ◌≤◌, ◌≡◌, ◌≢◌, ◌↔◌, ◌⊎◌, String, Option, none, some, true, false, max, arith, truthy,
  eq_iff, trim, Option-cases, Bool-cases, inl, inr, if◌then◌else◌, leb, ltb,
}
use vlessvmorectl.Types.{DisabledReason}
use vlessvmorectl.Format.{
  Count, TimeUnit, UserState, active, expired, enabled_state, expiring, UserStateInput, user_state,
  day_ms, quota_state, ServerName, has_server_name,
}

-- How far along its life a state is, for an enabled user.
abbrev pub stage : UserState → ℕ
stage active = 0
stage (expiring _) = 1
stage _ = 2

-- The expiry of a user as an instant, where it has one that parses.
abbrev pub expiry_of : (String → Option ℕ) → Option String → Option ℕ
expiry_of date_parse none = none
expiry_of date_parse (some iso) = if truthy iso then date_parse iso else none

module _ (date_parse : String → Option ℕ) (rtf_format : Count → TimeUnit → String) where
  enabled_state_never :
      (e : Option String) (now : ℕ)
      → expiry_of date_parse e ≡ none
      → enabled_state date_parse rtf_format e now ≡ active
  unfolding enabled_state
  enabled_state_never none now h = ground arith
  enabled_state_never (some iso) now h = ground arith

  stage-enabled_state :
      (e : Option String) (now at : ℕ)
      → expiry_of date_parse e ≡ some at
      → stage (enabled_state date_parse rtf_format e now)
        ≡ (if leb at now then 2 else if ltb at (now + 7 * day_ms) then 1 else 0)
  unfolding enabled_state
  stage-enabled_state none now at h = ground arith
  stage-enabled_state (some iso) now at h = ground arith

  enabled_state_expired :
      (e : Option String) (now at : ℕ)
      → expiry_of date_parse e ≡ some at
      → (enabled_state date_parse rtf_format e now ≡ expired) ↔ (at ≤ now)
  unfolding enabled_state
  enabled_state_expired none now at h = cc
  enabled_state_expired (some iso) now at h = (λ p. ground arith, λ p. ground arith)

  -- The status of an enabled user never moves back as time passes: from active to expiring to
  -- expired.
  user_state_mono :
      (u : UserStateInput) (now later : ℕ)
      → u.enabled ≡ true
      → now ≤ later
      → stage (user_state date_parse rtf_format u now)
        ≤ stage (user_state date_parse rtf_format u later)
  unfolding user_state
  user_state_mono u now later on le = elim (Option-cases (expiry_of date_parse u.expires_at)) [
    | inl e ↦
        ground
          (arith, enabled_state_never u.expires_at now e, enabled_state_never u.expires_at later e)
    | inr (at, e) ↦ ground (
      arith,
      stage-enabled_state u.expires_at now at e,
      stage-enabled_state u.expires_at later at e,
    )
  ]

  module _ (u : UserStateInput) (now : ℕ) where
    -- A user is "active" exactly when it is enabled and has no expiry that parses, or one that is
    -- at least seven days ahead.
    pub user_state-active_iff : (user_state date_parse rtf_format u now ≡ active) ↔ (
        (u.enabled ≡ true)
        × ((expiry_of date_parse u.expires_at ≡ none)
            ⊎ ((at : ℕ) × (expiry_of date_parse u.expires_at ≡ some at) × (now + 7 * day_ms ≤ at))))
    unfolding user_state
    user_state-active_iff = (
      λ h. elim (Option-cases (expiry_of date_parse u.expires_at)) [
        | inl e ↦ (ground arith, inl e)
        | inr (at, e) ↦
            (ground arith, inr (at, e, ground (arith, stage-enabled_state u.expires_at now at e)))
      ],
      λ h. elim (h.1) [
        | inl e ↦ ground (arith, enabled_state_never u.expires_at now e)
        | inr (at, e, far) ↦ ground (arith, stage-enabled_state u.expires_at now at e)
      ],
    )

    -- A user is "expired" exactly when it was switched off for that reason, or is enabled with an
    -- expiry that is not after now.
    pub user_state-expired_iff : (user_state date_parse rtf_format u now ≡ expired) ↔ (
        ((u.enabled ≡ false) × (u.disabled_reason ≡ some DisabledReason.expired))
        ⊎ ((u.enabled ≡ true)
            × ((at : ℕ) × (expiry_of date_parse u.expires_at ≡ some at) × (at ≤ now))))
    unfolding user_state
    user_state-expired_iff = (
      λ h. elim (Bool-cases u.enabled) [
        | inl on ↦ elim (Option-cases (expiry_of date_parse u.expires_at)) [
          | inl e ↦ inl (ground (arith, enabled_state_never u.expires_at now e))
          | inr (at, e) ↦
              inr (on, (at, e, ground (arith, stage-enabled_state u.expires_at now at e)))
        ]
        | inr off ↦ inl (off, ground arith)
      ],
      λ h. elim h [
        | inl (off, why) ↦ ground arith
        | inr (on, (at, e, past)) ↦ ground (arith, enabled_state_expired u.expires_at now at e)
      ],
    )

-- Under a quota other than 0 the figures add up: the user is not unlimited, what is used and what
-- remains make the larger of the use and the limit, the share is at most the whole, and it is the
-- whole exactly when nothing remains.
pub quota_state_balance :
    (q : ℕ) (w : Option ℕ)
    → q ≢ 0
    → ((quota_state q w).unlimited ≡ false)
      × ((quota_state q w).used + (quota_state q w).remaining ≡ max (quota_state q w).used q)
      × ((quota_state q w).fraction_num ≤ (quota_state q w).fraction_den)
      × (((quota_state q w).fraction_num ≡ (quota_state q w).fraction_den)
          ↔ ((quota_state q w).remaining ≡ 0))
unfolding quota_state
quota_state_balance q none h = ground arith
quota_state_balance q (some w) h = ground arith

-- The host is shown beside the label exactly when the configured name, trimmed, is neither empty
-- nor the host.
pub has_server_name_iff :
    (info : ServerName)
    → (has_server_name info ≡ true)
      ↔ ((n : String) × (info.name ≡ some n) × (truthy (trim n) ≡ true) × (trim n ≢ info.host))
unfolding has_server_name
has_server_name_iff info = (
  λ h. elim (Option-cases info.name) [
    | inl e ↦ absurd (ground (arith, eq_iff info.host info.host))
    | inr (n, e) ↦ (
      n,
      e,
      ground (arith, eq_iff info.host info.host),
      ground (arith, eq_iff (trim n) info.host),
    )
  ],
  λ h. ground (arith, eq_iff (trim (h.0)) info.host),
)
