-- ===== src/UserDetails/Quota.antt =====
-- The quota that a form shows and the quota that the user has.
use vlessvmorectl.Base.{
  ℕ, ◌%◌, ◌≡◌, ◌↔◌, refl, false, none, some, [], ltb, ◌==◌, if◌then◌else◌, arith, ap, eq_iff, trim,
  or_default, Bool-cases, inl, inr,
}
use vlessvmorectl.Types.{VlessUser}
use vlessvmorectl.Bytes.{parse_bytes}
use vlessvmorectl.Bytes.RoundTrip.{
  unit_size, shown_size, round_div-zero, one-le-pow, parse_bytes-format_bytes,
}
use vlessvmorectl.Bytes.Exact.{shown_size-test}
use vlessvmorectl.Base.{min}
use vlessvmorectl.UserDetails.{Form, initial_quota, initial_form, dirty, save}

parse_empty : parse_bytes [] ≡ some 0
unfolding parse_bytes
parse_empty = refl

-- The quota a form starts with is read as the multiple of its unit next to the user's quota.
parse_bytes-initial_quota :
    (exponent : ℕ → ℕ) (user : VlessUser)
    → parse_bytes (initial_quota exponent user) ≡ some (shown_size exponent user.quota_bytes)
unfolding initial_quota
parse_bytes-initial_quota exponent user = elim (Bool-cases (ltb 0 user.quota_bytes)) [
  | inl e ↦ rw e (parse_bytes-format_bytes exponent user.quota_bytes)
  | inr e ↦
      rw (e, parse_empty)
        (ap some (
          round_div-zero user.quota_bytes (unit_size exponent user.quota_bytes) (ground arith)
            (one-le-pow (min (exponent user.quota_bytes) 5))))
]

module _ (Date : Type 0) (exponent : ℕ → ℕ) (user : VlessUser) (form : Form) where
  -- A save of a form whose quota was not touched leaves the quota out exactly when the quota is a
  -- whole multiple of the unit it is shown in; else it asks for the multiple of the unit next to it.
  pub save_untouched_quota :
      form.quota ≡ initial_quota exponent user
      → (save user form {Date = Date}).quota_bytes ≡ (
          if user.quota_bytes % unit_size exponent user.quota_bytes == 0
          then none
          else some (shown_size exponent user.quota_bytes))
  unfolding save
  save_untouched_quota h =
      rw (h, parse_bytes-initial_quota exponent user, shown_size-test exponent user.quota_bytes)
        (ground arith)

-- The form of a user whose name and note have no white space at their ends counts as changed before
-- it is touched exactly when the quota is not a whole multiple of the unit it is shown in.
pub initial_form-dirty_iff :
    (exponent : ℕ → ℕ) (user : VlessUser)
    → trim user.name ≡ user.name
    → trim (or_default user.note "") ≡ or_default user.note ""
    → (dirty user (initial_form exponent user) ≡ false)
      ↔ (user.quota_bytes % unit_size exponent user.quota_bytes ≡ 0)
unfolding dirty initial_form
initial_form-dirty_iff exponent user n w =
    rw (n, w, parse_bytes-initial_quota exponent user, shown_size-test exponent user.quota_bytes)
      (
        λ h. ground (
          arith,
          h,
          eq_iff user.name user.name,
          eq_iff (or_default user.note "") (or_default user.note ""),
        ),
        λ h. ground (
          arith,
          h,
          eq_iff user.name user.name,
          eq_iff (or_default user.note "") (or_default user.note ""),
        ),
      )
