-- ===== src/Patch/Tests.antt =====
-- Runs of `toBody`, and the theorems about it at concrete fields.
use vlessvmorectl.Base.{ℕ, String, ◌≡◌, refl, Option, none, some, [], ◌∷◌}
use vlessvmorectl.Patch.{
  keep, clear, null, text, number, ok, err, empty_patch, UserPatchFields, UserCreateFields,
  patch_body, create_body,
}
use vlessvmorectl.Patch.Decode.{
  PatchOutcome, CreateOutcome, patch_body-PatchOutcome, create_body-CreateOutcome,
}

abbrev print_date : ℕ → Option String
print_date n = some "2026-08-01T00:00:00.000Z"

abbrev rename_and_clear : UserPatchFields ℕ
rename_and_clear = record {
  name = some "bob";
  uuid = none;
  enabled = none;
  quota_bytes = some 0;
  note = none;
  expires_at = some clear;
}

abbrev nothing : UserPatchFields ℕ
nothing = record {
  name = none;
  uuid = none;
  enabled = none;
  quota_bytes = none;
  note = none;
  expires_at = some keep;
}

abbrev alice : UserCreateFields ℕ
alice = record {
  name = "alice";
  uuid = some "";
  quota_bytes = some 0;
  note = some "phone";
  enabled = none;
  expires_at = some 5;
}

clear_is_null :
    patch_body print_date rename_and_clear
    ≡ ok (("name", text "bob") ∷ ("quota_bytes", number 0) ∷ ("expires_at", null) ∷ [])
unfolding patch_body
clear_is_null = refl

keep_is_empty : patch_body print_date nothing ≡ err empty_patch
unfolding patch_body
keep_is_empty = refl

patch_body-PatchOutcome_example :
    PatchOutcome print_date rename_and_clear (patch_body print_date rename_and_clear)
patch_body-PatchOutcome_example = patch_body-PatchOutcome print_date rename_and_clear

create_body-CreateOutcome_example : CreateOutcome print_date alice (create_body print_date alice)
create_body-CreateOutcome_example = create_body-CreateOutcome print_date alice
