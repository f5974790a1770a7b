-- ===== src/Patch/Body.antt =====
-- The keys of the bodies of web/src/api/patch.ts: what each assignment does to a lookup, and when
-- `UserPatch.toBody` refuses.
use vlessvmorectl.Base.{
  String, ◌≡◌, refl, ◌↔◌, ◌⊎◌, false, Option, none, some, [], ◌∷◌, lookup, insert, lookup-insert,
  arith, str_eq, if◌then◌else◌, truthy, Bool-cases, inl, inr, any,
}
use vlessvmorectl.Patch.{
  keep, Value, text, Body, Result, ok, err, empty_patch, UserPatchFields, UserCreateFields,
  patch_body, assign, assign_truthy, create_body, create_fields, create_expiry, iso_value, ◌>>=◌,
  assert_writable, check_keys, writable,
}

module _ {ℓ} {A : Type ℓ} where
  abbrev pub override : (A → Value) → Option A → Option Value → Option Value
  override f none old = old
  override f (some a) old = some (f a)

  pub lookup-assign :
      (f : A → Value) (k j : String) (o : Option A) (b : Body)
      → lookup j (assign f k o b) ≡ (if str_eq k j then override f o (lookup j b) else lookup j b)
  unfolding assign
  lookup-assign f k j none b = ground arith
  lookup-assign f k j (some a) b = lookup-insert k j (f a) b

-- A blank text counts as absent.
abbrev pub non_blank : Option String → Option String
non_blank none = none
non_blank (some s) = if truthy s then some s else none

pub lookup-assign_truthy :
    (k j : String) (o : Option String) (b : Body)
    → lookup j (assign_truthy k o b)
      ≡ (if str_eq k j then override text (non_blank o) (lookup j b) else lookup j b)
unfolding assign_truthy
lookup-assign_truthy k j none b = ground arith
lookup-assign_truthy k j (some s) b = ground (arith, lookup-insert k j (text s) b)

>>=-returns {ℓ₁ ℓ₂} :
    {T : Type ℓ₁} {U : Type ℓ₂} (outcome : Result T) (next : T → Result U) {u : U}
    → (outcome >>= next) ≡ ok u
    → (t : T) × (next t ≡ ok u) × (outcome ≡ ok t)
>>=-returns (err thrown) next h = cc
>>=-returns (ok value) next h = (value, h, refl)

check_keys-ok : (b r c : Body) → check_keys b r ≡ ok c → c ≡ b
unfolding check_keys
check_keys-ok b [] c h = cc
check_keys-ok b ((k, v) ∷ r) c h = elim (Bool-cases (any (λ w. str_eq w k) writable)) [
  | inl e ↦ check_keys-ok b r c (rw e at h)
  | inr e ↦ cc (rw e at h)
]

pub assert_writable-ok : (b c : Body) → assert_writable b ≡ ok c → c ≡ b
unfolding assert_writable
assert_writable-ok b c h = check_keys-ok b b c h

-- No field of a patch asks for a change.
abbrev pub Absent : {Date : Type 0} → UserPatchFields Date → Type 0
Absent f =
    (f.name ≡ none)
    × (f.uuid ≡ none)
    × (f.enabled ≡ none)
    × (f.quota_bytes ≡ none)
    × (f.note ≡ none)
    × ((f.expires_at ≡ none) ⊎ (f.expires_at ≡ some keep))

module _ {Date : Type 0} (to_iso_string : Date → Option String) where
  -- `UserPatch.toBody` throws "nothing to change" exactly when every field is left out and the
  -- expiry is left out or kept.
  pub patch_body-empty_iff :
      (f : UserPatchFields Date) → (patch_body to_iso_string f ≡ err empty_patch) ↔ Absent f
  unfolding patch_body
  patch_body-empty_iff f = (λ h. ground arith, λ h. ground arith)

  lookup-create_expiry :
      (x : Option Date) (body b : Body) (k : String)
      → create_expiry to_iso_string x body ≡ ok b
      → str_eq "expires_at" k ≡ false
      → lookup k b ≡ lookup k body
  unfolding create_expiry
  lookup-create_expiry none body b k h n = cc
  lookup-create_expiry (some d) body b k h n =
      let (v, q, p) =
        >>=-returns (iso_value (to_iso_string d)) (λ v. ok (insert "expires_at" v body)) h in
      ground (arith, lookup-insert "expires_at" k v body)

  -- In the body of a new user every key but the expiry has what the assignments gave it.
  pub lookup-create_body :
      (f : UserCreateFields Date) (b : Body) (k : String)
      → create_body to_iso_string f ≡ ok b
      → str_eq "expires_at" k ≡ false
      → lookup k b ≡ lookup k (create_fields f)
  unfolding create_body
  lookup-create_body f b k h n =
      let (full, w, e) =
        >>=-returns (create_expiry to_iso_string f.expires_at (create_fields f)) assert_writable
          h in
      rw (assert_writable-ok full b w)
        (lookup-create_expiry f.expires_at (create_fields f) full k e n)
