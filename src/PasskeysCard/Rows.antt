-- ===== src/PasskeysCard/Rows.antt =====
-- What a row says of its provider, and which passkey a confirmation removes.
use vlessvmorectl.Base.{
  String, ◌≡◌, ◌≢◌, refl, sym, ◌∙◌, true, false, Bool-cases, Option, none, some, List, [], ◌∷◌, All,
  ◌⊎◌, inl, inr, str_eq, eq_iff, truthy,
}
use vlessvmorectl.PasskeysCard.{
  Passkey, or_text, display_name, caption_of, provider_caption, CardState, CardEvent, add,
  registered, register_failed, trash, kept, confirmed, removed, remove_failed, card_step,
  asked_removal,
}

true-ne-false : true ≢ false
true-ne-false h = cc

truthy-or_text :
    (l : String) (o : Option String) → truthy (or_text (some l) (or_text o "Unknown")) ≡ true
truthy-or_text l none = elim (Bool-cases (truthy l)) [ inl e ↦ rw (e, e) refl | inr e ↦ rw e refl ]
truthy-or_text l (some o) = elim (Bool-cases (truthy l)) [
  | inl e ↦ rw (e, e) refl
  | inr e ↦ elim (Bool-cases (truthy o)) [ inl f ↦ rw (e, f, f) refl | inr f ↦ rw (e, f) refl ]
]

caption_of_lem :
    (provider heading : String)
    → truthy provider ≡ true
    → ((caption_of (some provider) heading ≡ some provider) × (provider ≢ heading))
      ⊎ ((caption_of (some provider) heading ≡ none) × (provider ≡ heading))
unfolding caption_of
caption_of_lem provider heading t = elim (Bool-cases (str_eq provider heading)) [
  | inl h ↦ inr (rw (t, h) refl, (eq_iff provider heading).0 h)
  | inr h ↦ inl (rw (t, h) refl, λ g. true-ne-false (sym ((eq_iff provider heading).1 g) ∙ h))
]

caption_of_provider :
    (o : Option String) (provider heading : String)
    → o ≡ some provider
    → truthy provider ≡ true
    → ((caption_of o heading ≡ some provider) × (provider ≢ heading))
      ⊎ ((caption_of o heading ≡ none) × (provider ≡ heading))
caption_of_provider o provider heading e t = rw e (caption_of_lem provider heading t)

heading_of_provider :
    (l : String) (o : Option String) (provider : String)
    → o ≡ some provider
    → truthy provider ≡ true
    → l ≡ ""
    → or_text (some l) (or_text o "Unknown") ≡ provider
heading_of_provider l o provider e t h = rw (h, e, t) refl

no_caption : (o : Option String) (heading : String) → o ≡ none → caption_of o heading ≡ none
unfolding caption_of
no_caption o heading e = rw e refl

-- The heading of a row is never empty. The caption names the provider exactly where there is one that
-- is no empty text and the heading is not its name already; a passkey without a label is headed
-- by its provider.
provider_caption-display_name :
    (p : Passkey) (provider : String)
    → (truthy (display_name p) ≡ true)
      × (p.provider ≡ some provider
          → truthy provider ≡ true
          → ((provider_caption p ≡ some provider) × (provider ≢ display_name p))
            ⊎ ((provider_caption p ≡ none) × (provider ≡ display_name p)))
      × (p.provider ≡ some provider
          → truthy provider ≡ true
          → p.label ≡ ""
          → display_name p ≡ provider)
      × (p.provider ≡ none → provider_caption p ≡ none)
unfolding provider_caption display_name
provider_caption-display_name p provider = (
  truthy-or_text p.label p.provider,
  caption_of_provider p.provider provider (display_name p),
  heading_of_provider p.label p.provider provider,
  no_caption p.provider (display_name p),
)

-- the state of the card after a sequence of events
abbrev pub card_run : List CardEvent → CardState → CardState
card_run [] s = s
card_run (e ∷ events) s = card_run events (card_step e s)

-- An event that neither opens nor closes the confirmation
abbrev pub IsAside : CardEvent → Type 0
IsAside add = Unit
IsAside (registered discoverable) = Unit
IsAside register_failed = Unit
IsAside (trash p) = ⊥
IsAside kept = ⊥
IsAside confirmed = Unit
IsAside removed = ⊥
IsAside remove_failed = Unit

aside-pending_delete :
    (e : CardEvent) (s : CardState) → IsAside e → (card_step e s).pending_delete ≡ s.pending_delete
unfolding card_step
aside-pending_delete add s h = refl
aside-pending_delete (registered discoverable) s h = refl
aside-pending_delete register_failed s h = refl
aside-pending_delete (trash p) s h = absurd h
aside-pending_delete kept s h = absurd h
aside-pending_delete confirmed s h = refl
aside-pending_delete removed s h = absurd h
aside-pending_delete remove_failed s h = refl

run-pending_delete :
    (events : List CardEvent) (s : CardState)
    → All IsAside events
    → (card_run events s).pending_delete ≡ s.pending_delete
run-pending_delete [] s h = refl
run-pending_delete (e ∷ events) s (a, h) =
    run-pending_delete events (card_step e s) h ∙ aside-pending_delete e s a

-- A confirmation removes the passkey whose trash was pressed last: whatever enrolments, refusals and
-- other presses come in between, it asks for that one, and after it was kept or removed for none until
-- the trash of a row is pressed again.
asked_removal-card_run :
    (p : Passkey) (events : List CardEvent) (s : CardState)
    → All IsAside events
    → (asked_removal confirmed (card_run (trash p ∷ events) s) ≡ some p.id)
      × (asked_removal confirmed (card_run (kept ∷ events) s) ≡ none)
      × (asked_removal confirmed (card_run (removed ∷ events) s) ≡ none)
unfolding asked_removal card_step
asked_removal-card_run p events s h = (
  rw (run-pending_delete events (card_step (trash p) s) h) refl,
  rw (run-pending_delete events (card_step kept s) h) refl,
  rw (run-pending_delete events (card_step removed s) h) refl,
)
