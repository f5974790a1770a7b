-- ===== src/Patch/Decode.antt =====
-- The node's reading of a body, written from the rules that web/src/api/patch.ts states for it (an
-- absent key changes nothing, a null clears, a value sets), and what `toBody` says to such a reader.
use vlessvmorectl.Base.{
  ℕ, String, ◌≡◌, refl, Bool, Option, none, some, lookup, arith, Option-cases, inl, inr,
}
use vlessvmorectl.Patch.{
  Tri, keep, clear, set, Value, null, text, number, flag, Body, Result, ok, err, invalid_date,
  empty_patch, not_writable, UserPatchFields, UserCreateFields, patch_body, create_body,
  create_fields,
}
use vlessvmorectl.Patch.Body.{
  Absent, non_blank, lookup-assign, lookup-assign_truthy, lookup-create_body,
}

ruleset create_laws = (lookup-assign, lookup-assign_truthy)

-- What a body asks of the node.
pub record Wire : Type 0 where
  pub name : Option String
  pub uuid : Option String
  pub enabled : Option Bool
  pub quota_bytes : Option ℕ
  pub note : Option String
  pub expires_at : Tri String

read_text : Option Value → Option String
read_text (some (text s)) = some s
read_text _ = none

read_flag : Option Value → Option Bool
read_flag (some (flag b)) = some b
read_flag _ = none

read_number : Option Value → Option ℕ
read_number (some (number n)) = some n
read_number _ = none

-- absent: keep; null: clear; a text: set
read_expiry : Option Value → Tri String
read_expiry (some null) = clear
read_expiry (some (text s)) = set s
read_expiry _ = keep

pub decode : Body → Wire
unfolding read_text read_flag read_number read_expiry lookup
decode b = record {
  name = read_text (lookup "name" b);
  uuid = read_text (lookup "uuid" b);
  enabled = read_flag (lookup "enabled" b);
  quota_bytes = read_number (lookup "quota_bytes" b);
  note = read_text (lookup "note" b);
  expires_at = read_expiry (lookup "expires_at" b);
}

-- The expiry of a new user as a patch would write it.
abbrev chosen : {Date : Type 0} → Option Date → Option (Tri Date)
chosen none = none
chosen (some d) = some (set d)

module _ {Date : Type 0} (to_iso_string : Date → Option String) where
  -- What the expiry of a patch asks for, with the date printed.
  abbrev pub MeansExpiry : Option (Tri Date) → Tri String → Type 0
  MeansExpiry none t = t ≡ keep
  MeansExpiry (some keep) t = t ≡ keep
  MeansExpiry (some clear) t = t ≡ clear
  MeansExpiry (some (set d)) t = (s : String) × (to_iso_string d ≡ some s) × (t ≡ set s)

  abbrev pub IsUnprintable : Option (Tri Date) → Type 0
  IsUnprintable e = (d : Date) × (e ≡ some (set d)) × (to_iso_string d ≡ none)

  -- What each outcome of `UserPatch.toBody` says of the fields.
  abbrev pub PatchOutcome : UserPatchFields Date → Result Body → Type 0
  PatchOutcome f (ok b) =
      ((decode b).name ≡ f.name)
      × ((decode b).uuid ≡ f.uuid)
      × ((decode b).enabled ≡ f.enabled)
      × ((decode b).quota_bytes ≡ f.quota_bytes)
      × ((decode b).note ≡ f.note)
      × MeansExpiry f.expires_at (decode b).expires_at
  PatchOutcome f (err empty_patch) = Absent f
  PatchOutcome f (err invalid_date) = IsUnprintable f.expires_at
  PatchOutcome f (err (not_writable k)) = ⊥

  expiry_of_patch :
      (f : UserPatchFields Date) (b : Body) (x : Option (Tri Date))
      → f.expires_at ≡ x
      → patch_body to_iso_string f ≡ ok b
      → MeansExpiry x (decode b).expires_at
  unfolding patch_body decode
  expiry_of_patch f b none p e = ground arith
  expiry_of_patch f b (some keep) p e = ground arith
  expiry_of_patch f b (some clear) p e = ground arith
  expiry_of_patch f b (some (set d)) p e = elim (Option-cases (to_iso_string d)) [
    | inl n ↦ ground arith
    | inr (s, q) ↦ (s, q, ground arith)
  ]

  IsUnprintable-patch_body :
      (f : UserPatchFields Date) (x : Option (Tri Date))
      → f.expires_at ≡ x
      → patch_body to_iso_string f ≡ err invalid_date
      → IsUnprintable x
  unfolding patch_body
  IsUnprintable-patch_body f none p e = ground arith
  IsUnprintable-patch_body f (some keep) p e = ground arith
  IsUnprintable-patch_body f (some clear) p e = ground arith
  IsUnprintable-patch_body f (some (set d)) p e = (d, refl, ground arith)

  outcome_of_patch :
      (f : UserPatchFields Date) (r : Result Body)
      → patch_body to_iso_string f ≡ r
      → PatchOutcome f r
  unfolding patch_body decode
  outcome_of_patch f (ok b) e = (
    ground arith,
    ground arith,
    ground arith,
    ground arith,
    ground arith,
    expiry_of_patch f b f.expires_at refl e,
  )
  outcome_of_patch f (err empty_patch) e = ground arith
  outcome_of_patch f (err invalid_date) e = IsUnprintable-patch_body f f.expires_at refl e
  outcome_of_patch f (err (not_writable k)) e = ground arith

  -- `UserPatch.toBody` on any fields: a body that it returns asks the node for exactly those
  -- fields, with an expiry kept, cleared or set as the three-valued field says; it throws
  -- "nothing to change" only where no field asks for a change, and the range error only for an
  -- invalid date; it never throws "unknown field".
  pub patch_body-PatchOutcome :
      (f : UserPatchFields Date) → PatchOutcome f (patch_body to_iso_string f)
  unfolding patch_body decode
  patch_body-PatchOutcome f = outcome_of_patch f (patch_body to_iso_string f) refl

  abbrev pub CreateOutcome : UserCreateFields Date → Result Body → Type 0
  CreateOutcome f (ok b) =
      ((decode b).name ≡ some f.name)
      × ((decode b).uuid ≡ non_blank f.uuid)
      × ((decode b).enabled ≡ f.enabled)
      × ((decode b).quota_bytes ≡ f.quota_bytes)
      × ((decode b).note ≡ non_blank f.note)
      × MeansExpiry (chosen f.expires_at) (decode b).expires_at
  CreateOutcome f (err invalid_date) = IsUnprintable (chosen f.expires_at)
  CreateOutcome f (err _) = ⊥

  expiry_of_create :
      (f : UserCreateFields Date) (b : Body) (x : Option Date)
      → f.expires_at ≡ x
      → create_body to_iso_string f ≡ ok b
      → MeansExpiry (chosen x) (decode b).expires_at
  unfolding create_body decode
  expiry_of_create f b none p e = ground arith
  expiry_of_create f b (some d) p e = elim (Option-cases (to_iso_string d)) [
    | inl n ↦ ground arith
    | inr (s, q) ↦ (s, q, ground arith)
  ]

  IsUnprintable-create_body :
      (f : UserCreateFields Date) (x : Option Date)
      → f.expires_at ≡ x
      → create_body to_iso_string f ≡ err invalid_date
      → IsUnprintable (chosen x)
  unfolding create_body
  IsUnprintable-create_body f none p e = ground arith
  IsUnprintable-create_body f (some d) p e = (d, refl, ground arith)

  -- The keys of a new user's body, one by one.
  fields_of_create :
      (f : UserCreateFields Date) (b : Body)
      → create_body to_iso_string f ≡ ok b
      → ((decode b).name ≡ some f.name)
        × ((decode b).uuid ≡ non_blank f.uuid)
        × ((decode b).enabled ≡ f.enabled)
        × ((decode b).quota_bytes ≡ f.quota_bytes)
        × ((decode b).note ≡ non_blank f.note)
  unfolding decode create_fields
  fields_of_create f b e = (
    rw (lookup-create_body to_iso_string f b "name" e refl) (simp create_laws (ground arith)),
    rw (lookup-create_body to_iso_string f b "uuid" e refl) (simp create_laws (ground arith)),
    rw (lookup-create_body to_iso_string f b "enabled" e refl) (simp create_laws (ground arith)),
    rw (lookup-create_body to_iso_string f b "quota_bytes" e refl)
        (simp create_laws (ground arith)),
    rw (lookup-create_body to_iso_string f b "note" e refl) (simp create_laws (ground arith)),
  )

  outcome_of_create :
      (f : UserCreateFields Date) (r : Result Body)
      → create_body to_iso_string f ≡ r
      → CreateOutcome f r
  unfolding create_body
  outcome_of_create f (ok b) e =
      let (a, u, n, q, t) = fields_of_create f b e in
      (a, u, n, q, t, expiry_of_create f b f.expires_at refl e)
  outcome_of_create f (err empty_patch) e = ground arith
  outcome_of_create f (err invalid_date) e = IsUnprintable-create_body f f.expires_at refl e
  outcome_of_create f (err (not_writable k)) e = ground arith

  -- `UserCreate.toBody` on any fields: a body that it returns always names the user, leaves out a
  -- blank uuid and a blank note, and asks for the other fields as they are given; it throws only
  -- the range error, and only for an invalid date.
  pub create_body-CreateOutcome :
      (f : UserCreateFields Date) → CreateOutcome f (create_body to_iso_string f)
  create_body-CreateOutcome f = outcome_of_create f (create_body to_iso_string f) refl
