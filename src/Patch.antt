-- ===== src/Patch.antt =====
-- web/src/api/patch.ts: the bodies of the node's user endpoints. `Date` is the section's parameter
-- with `toISOString`, which throws (`none`) on an invalid date.
pub mod Body
pub mod Decode
mod Tests
use vlessvmorectl.Base.{
  ℕ, String, Bool, true, false, Option, none, some, List, [], ◌∷◌, any, str_eq, truthy, insert,
  if◌then◌else◌, or_default,
}

-- `private constructor`: the three factories are the only values.
pub data Tri {ℓ} (T : Type ℓ) : Type ℓ where
  keep clear : Tri T
  set : T → Tri T

-- a value of a request body
pub data Value : Type 0 where
  null : Value
  text : String → Value
  number : ℕ → Value
  flag : Bool → Value

abbrev pub Body : Type 0
Body = List (String × Value)

-- What `toBody` throws: `EmptyPatchError`, the `Error` of `assertWritable`, and the `RangeError` of
-- `toISOString`.
pub data BodyError : Type 0 where
  empty_patch invalid_date : BodyError
  not_writable : String → BodyError

pub data Result {ℓ} (A : Type ℓ) : Type ℓ where
  ok : A → Result A
  err : BodyError → Result A

infixl 5 ◌>>=◌
abbrev pub ◌>>=◌ {ℓ₁ ℓ₂} : {T : Type ℓ₁} {U : Type ℓ₂} → Result T → (T → Result U) → Result U
outcome >>= next = elim outcome [ err thrown ↦ err thrown | ok value ↦ next value ]

abbrev pub writable : List String
writable = "name" ∷ "uuid" ∷ "enabled" ∷ "quota_bytes" ∷ "expires_at" ∷ "note" ∷ []

-- the loop of `assertWritable` over the keys, in order
check_keys : Body → Body → Result Body
check_keys body [] = ok body
check_keys body ((k, v) ∷ rest) =
    if any (λ w. str_eq w k) writable then check_keys body rest else err (not_writable k)

unfoldable pub assert_writable : Body → Result Body
unfolding check_keys
assert_writable body = check_keys body body

-- `if (v !== undefined) body[k] = v`
unfoldable pub assign {ℓ} : {A : Type ℓ} → (A → Value) → String → Option A → Body → Body
unfolding insert
assign f k none body = body
assign f k (some a) body = insert k (f a) body

-- `if (v) body[k] = v` for a text
unfoldable pub assign_truthy : String → Option String → Body → Body
unfolding insert
assign_truthy k none body = body
assign_truthy k (some a) body = if truthy a then insert k (text a) body else body

iso_value : Option String → Result Value
iso_value none = err invalid_date
iso_value (some s) = ok (text s)

pub record UserPatchFields (Date : Type 0) : Type 0 where
  pub name : Option String
  pub uuid : Option String
  pub enabled : Option Bool
  pub quota_bytes : Option ℕ
  pub note : Option String
  pub expires_at : Option (Tri Date)

pub record UserCreateFields (Date : Type 0) : Type 0 where
  pub name : String
  pub uuid : Option String
  pub quota_bytes : Option ℕ
  pub note : Option String
  pub enabled : Option Bool
  pub expires_at : Option Date

-- `UserPatch.enabled`
unfoldable pub enabled_patch : {Date : Type 0} → Bool → UserPatchFields Date
enabled_patch e = record {
  name = none;
  uuid = none;
  enabled = some e;
  quota_bytes = none;
  note = none;
  expires_at = none;
}

-- A body with no key is refused.
non_empty : Body → Result Body
non_empty [] = err empty_patch
non_empty (e ∷ body) = ok (e ∷ body)

module _ {Date : Type 0} where
  -- the assignments of `UserPatch.toBody` before the `switch`
  unfoldable pub patch_fields : UserPatchFields Date → Body
  unfolding assign
  patch_fields f = assign text "note" f.note (
      assign number "quota_bytes" f.quota_bytes (
        assign flag "enabled" f.enabled (assign text "uuid" f.uuid (assign text "name" f.name []))))

  -- the assignments of `UserCreate.toBody` before the expiry
  unfoldable pub create_fields : UserCreateFields Date → Body
  unfolding assign assign_truthy
  create_fields f = assign flag "enabled" f.enabled (
      assign_truthy "note" f.note (
        assign number "quota_bytes" f.quota_bytes
          (assign_truthy "uuid" f.uuid (("name", text f.name) ∷ []))))

module _ {Date : Type 0} (to_iso_string : Date → Option String) where
  -- the `switch` of `toBody` on `f.expiresAt?.op ?? "keep"`
  unfoldable pub put_expiry : Option (Tri Date) → Body → Result Body
  unfolding insert iso_value
  put_expiry none body = ok body
  put_expiry (some keep) body = ok body
  put_expiry (some clear) body = ok (insert "expires_at" null body)
  put_expiry (some (set d)) body = do
    v ← iso_value (to_iso_string d)
    ok (insert "expires_at" v body)

  -- `UserPatch.toBody`
  unfoldable pub patch_body : UserPatchFields Date → Result Body
  unfolding patch_fields put_expiry non_empty assert_writable
  patch_body f = do
    full ← put_expiry f.expires_at (patch_fields f)
    changed ← non_empty full
    assert_writable changed

  create_expiry : Option Date → Body → Result Body
  unfolding insert iso_value
  create_expiry none body = ok body
  create_expiry (some d) body = do v ← iso_value (to_iso_string d); ok (insert "expires_at" v body)

  -- `UserCreate.toBody`
  unfoldable pub create_body : UserCreateFields Date → Result Body
  unfolding create_fields create_expiry assert_writable
  create_body f = do full ← create_expiry f.expires_at (create_fields f); assert_writable full
