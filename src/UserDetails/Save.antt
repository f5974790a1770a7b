-- ===== src/UserDetails/Save.antt =====
-- What pressing Save sends, and that it leaves nothing to save.
use mathlib.Core.Option
use vlessvmorectl.Base.{
  ℕ, String, is_some, ◌≡◌, refl, Bool, true, false, ◌||◌, Option, none, some, lookup, trim,
  if◌then◌else◌, arith, eq_iff, ◌≢◌, ◌⊎◌, inl, inr, sym, ap, subst, ◌∙◌, Bool-cases, Option-cases,
  str_eq, or_default, ◌==◌,
}
use vlessvmorectl.Types.{VlessUser}
use vlessvmorectl.Patch.{Body, Value, UserPatchFields, ok, text, number, patch_body}
use vlessvmorectl.Bytes.{parse_bytes}
use vlessvmorectl.Hooks.Users.{patched}
use vlessvmorectl.UserDetails.{
  Form, name_changed, note_changed, quota_changed, is_changed, dirty, save, save_disabled,
}

abbrev asking : {Date : Type 0} → Option String → Option String → Option ℕ → UserPatchFields Date
asking name note quota = record {
  name = name;
  uuid = none;
  enabled = none;
  quota_bytes = quota;
  note = note;
  expires_at = none;
}

-- A body with these values for the keys of the form, and no other key.
abbrev pub Asks : Body → Option String → Option String → Option ℕ → Type 0
Asks body name note quota =
    (lookup "name" body ≡ Option.map text name)
    × (lookup "note" body ≡ Option.map text note)
    × (lookup "quota_bytes" body ≡ Option.map number quota)
    × (lookup "uuid" body ≡ none)
    × (lookup "enabled" body ≡ none)
    × (lookup "expires_at" body ≡ none)

-- What a body says of a field: nothing, where the new value is the old, or else the new value.
abbrev pub IsAsked : {A : Type 0} → Option Value → (A → Value) → (new old : A) → Type 0
IsAsked found wrap new old =
    ((found ≡ none) × (new ≡ old)) ⊎ ((found ≡ some (wrap new)) × (new ≢ old))

true-ne-false : true ≢ false
true-ne-false h = cc

changed_number :
    (n old : ℕ)
    → IsAsked (Option.map number (if is_changed (some n) old then some n else none)) number n old
changed_number n old = elim (Bool-cases (n == old)) [
  | inl e ↦ inl (rw e refl, ground arith)
  | inr e ↦ inr (rw e refl, λ h. ground arith)
]

module _ {Date : Type 0} (to_iso_string : Date → Option String) where
  patch_body-asking :
      (name note : Option String) (quota : Option ℕ)
      → (is_some name || is_some note || is_some quota) ≡ true
      → (body : Body) × (patch_body to_iso_string (asking name note quota) ≡ ok body)
        × Asks body name note quota
  unfolding patch_body lookup
  patch_body-asking none none none h = cc
  patch_body-asking none none (some q) h = (_, refl, (refl, refl, refl, refl, refl, refl))
  patch_body-asking none (some b) none h = (_, refl, (refl, refl, refl, refl, refl, refl))
  patch_body-asking none (some b) (some q) h = (_, refl, (refl, refl, refl, refl, refl, refl))
  patch_body-asking (some a) none none h = (_, refl, (refl, refl, refl, refl, refl, refl))
  patch_body-asking (some a) none (some q) h = (_, refl, (refl, refl, refl, refl, refl, refl))
  patch_body-asking (some a) (some b) none h = (_, refl, (refl, refl, refl, refl, refl, refl))
  patch_body-asking (some a) (some b) (some q) h = (_, refl, (refl, refl, refl, refl, refl, refl))

  module _ (user : VlessUser) (form : Form) where
    some_changed :
        (pending : Bool)
        → save_disabled user form pending ≡ false
        → (is_some (if name_changed user form then some (trim form.name) else none)
            || is_some (if note_changed user form then some (trim form.note) else none)
            || is_some (if quota_changed user form then parse_bytes form.quota else none))
          ≡ true
    unfolding save_disabled
    some_changed pending h = ground arith

    IsAsked-name :
        IsAsked
          (Option.map text (if name_changed user form then some (trim form.name) else none))
          text
          (trim form.name)
          user.name
    unfolding name_changed
    IsAsked-name = elim (Bool-cases (str_eq (trim form.name) user.name)) [
      | inl e ↦ inl (rw e refl, (eq_iff (trim form.name) user.name).0 e)
      | inr e ↦
          inr (rw e refl, λ h. true-ne-false (sym ((eq_iff (trim form.name) user.name).1 h) ∙ e))
    ]

    IsAsked-note :
        IsAsked
          (Option.map text (if note_changed user form then some (trim form.note) else none))
          text
          (trim form.note)
          (or_default user.note "")
    unfolding note_changed
    IsAsked-note =
        let old = or_default user.note "" in
        elim (Bool-cases (str_eq (trim form.note) old)) [
          | inl e ↦ inl (rw e refl, (eq_iff (trim form.note) old).0 e)
          | inr e ↦
              inr (rw e refl, λ h. true-ne-false (sym ((eq_iff (trim form.note) old).1 h) ∙ e))
        ]

    is_some-quota :
        (pending : Bool)
        → save_disabled user form pending ≡ false
        → is_some (parse_bytes form.quota) ≡ true
    unfolding save_disabled
    is_some-quota pending h = ground arith

    IsAsked-quota :
        (n : ℕ)
        → parse_bytes form.quota ≡ some n
        → IsAsked
            (Option.map number (if quota_changed user form then parse_bytes form.quota else none))
            number
            n
            user.quota_bytes
    unfolding quota_changed
    IsAsked-quota n e = rw e (changed_number n user.quota_bytes)

    field_quota :
        (pending : Bool)
        → save_disabled user form pending ≡ false
        → (n : ℕ) × (parse_bytes form.quota ≡ some n)
    field_quota pending h = elim (Option-cases (parse_bytes form.quota)) [
      | inl e ↦ absurd (true-ne-false (sym (is_some-quota pending h) ∙ ap is_some e))
      | inr (n, e) ↦ (n, e)
    ]

    -- Where Save can be pressed, the body of its patch is written. It has a name exactly where the
    -- trimmed name of the form is not the user's, and so for the note; it has a quota exactly where what the
    -- field reads as is not the user's quota. Each is that of the form, and no other key is there.
    pub patch_body-save :
        (pending : Bool)
        → save_disabled user form pending ≡ false
        → (body : Body) × (n : ℕ) × (patch_body to_iso_string (save user form) ≡ ok body)
          × (parse_bytes form.quota ≡ some n)
          × IsAsked (lookup "name" body) text (trim form.name) user.name
          × IsAsked (lookup "note" body) text (trim form.note) (or_default user.note "")
          × IsAsked (lookup "quota_bytes" body) number n user.quota_bytes
          × (lookup "uuid" body ≡ none)
          × (lookup "enabled" body ≡ none)
          × (lookup "expires_at" body ≡ none)
    unfolding save
    patch_body-save pending h =
        let (body, written, (a, b, c, d, e, f)) =
          patch_body-asking _ _ _ (some_changed pending h) in
        let (n, q) = field_quota pending h in
        (
          body,
          n,
          written,
          q,
          subst (λ o. IsAsked o text (trim form.name) user.name) (sym a) IsAsked-name,
          subst (λ o. IsAsked o text (trim form.note) (or_default user.note "")) (sym b)
              IsAsked-note,
          subst (λ o. IsAsked o number n user.quota_bytes) (sym c) (IsAsked-quota n q),
          d,
          e,
          f,
        )

-- After a save the user of the optimistic cache is what the form says, so that nothing is left to save.
dirty-patched-save :
    (Date : Type 0) (user : VlessUser) (form : Form)
    → dirty (patched {Date = Date} (save user form) user) form ≡ false
unfolding dirty save patched
dirty-patched-save Date user form =
    ground
      (arith, eq_iff (trim form.name) (trim form.name), eq_iff (trim form.note) (trim form.note))
