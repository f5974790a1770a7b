-- ===== src/SubscriberDrawer/Save.antt =====
-- What the form of a subscriber is after a save.
use vlessvmorectl.Base.{
  String, true, not, ◌&&◌, ◌≡◌, ◌≢◌, ◌↔◌, sym, ◌∙◌, Option, none, some, str_eq, trim, eq_iff, arith,
}
use vlessvmorectl.Types.{Subscriber}
use vlessvmorectl.Hooks.Users.{patched_subscriber}
use vlessvmorectl.SubscriberDrawer.{
  same_note, DetailsForm, form_of, after_render, details_dirty, details_patch,
}

pub saved_dirty_lem :
    (s : Subscriber) (form : DetailsForm)
    → (let saved = patched_subscriber (details_patch form) s in
        details_dirty saved (after_render s saved form) ≡ (
          str_eq s.name (trim form.name)
          && same_note s.note (some form.note)
          && not (str_eq form.name (trim form.name))))
unfolding details_dirty after_render form_of details_patch patched_subscriber
saved_dirty_lem s form =
    ground (arith, eq_iff (trim form.name) (trim form.name), eq_iff form.note form.note)

same_note_iff : (n : Option String) (m : String) → (same_note n (some m) ≡ true) ↔ (n ≡ some m)
same_note_iff none m = (λ h. cc, λ h. cc)
same_note_iff (some n) m = (λ h. ground (arith, eq_iff n m), λ h. ground (arith, eq_iff n m))

module _ (s : Subscriber) (form : DetailsForm) where
  three_tests :
      (str_eq s.name (trim form.name)
          && same_note s.note (some form.note)
          && not (str_eq form.name (trim form.name)))
        ≡ true
      → (trim form.name ≡ s.name) × (s.note ≡ some form.note) × (form.name ≢ s.name)
  three_tests h = (
    ground (arith, eq_iff s.name (trim form.name)),
    ground (arith, same_note_iff s.note form.note),
    λ e. ground (arith, eq_iff s.name (trim form.name), eq_iff form.name (trim form.name)),
  )

  three_facts :
      trim form.name ≡ s.name
      → s.note ≡ some form.note
      → form.name ≢ s.name
      → (str_eq s.name (trim form.name)
          && same_note s.note (some form.note)
          && not (str_eq form.name (trim form.name)))
        ≡ true
  three_facts p q r = ground (
    arith,
    eq_iff s.name (trim form.name),
    eq_iff form.name (trim form.name),
    same_note_iff s.note form.note,
  )

-- After a save the form still has something to save exactly when only blanks around the name were
-- changed: the stored name and note are those from before, and the typed name is not the stored one.
pub details_dirty-saved_iff :
    (s : Subscriber) (form : DetailsForm)
    → (let saved = patched_subscriber (details_patch form) s in
        details_dirty saved (after_render s saved form) ≡ true)
      ↔ ((trim form.name ≡ s.name) × (s.note ≡ some form.note) × (form.name ≢ s.name))
details_dirty-saved_iff s form = (
  λ h. three_tests s form (sym (saved_dirty_lem s form) ∙ h),
  λ (p, q, r). saved_dirty_lem s form ∙ three_facts s form p q r,
)
