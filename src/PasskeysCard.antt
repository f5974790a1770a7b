-- ===== src/PasskeysCard.antt =====
-- web/src/features/passkeys/PasskeysCard.tsx: the card with an account's passkeys. Its messages are in
-- Notices. What a time prints as is a parameter.
pub mod Rows
mod Tests
use Prim.Native.String.{◌++◌}
use vlessvmorectl.Base.{
  ℕ, String, Bool, true, false, not, ◌&&◌, Option, none, some, List, [], ◌∷◌, str_eq, truthy, trim,
  if◌then◌else◌,
}
use vlessvmorectl.Theme.{Theme, dark, light}

-- `Passkey` of web/src/api/types.ts
pub record Passkey : Type 0 where
  pub id : String
  pub label : String
  pub algorithm : String
  pub provider : Option String
  pub aaguid : Option String
  pub logo : Option String
  pub logo_dark : Option String
  pub synced : Bool
  pub created_at : String
  pub last_used_at : Option String

-- Which of its three bodies the card shows
pub data CardBody : Type 0 where
  switched_off no_webauthn passkey_list : CardBody

unfoldable pub card_body : (enabled supported : Bool) → CardBody
card_body enabled supported =
    if enabled then (if supported then passkey_list else no_webauthn) else switched_off

-- `a || b` on a text that may be missing
abbrev pub or_text : Option String → String → String
or_text none b = b
or_text (some a) b = if truthy a then a else b

unfoldable pub display_name : Passkey → String
display_name p = or_text (some p.label) (or_text p.provider "Unknown")

-- What the caption under a heading says of the provider
unfoldable pub caption_of : Option String → (heading : String) → Option String
caption_of none heading = none
caption_of (some provider) heading =
    if truthy provider && not (str_eq provider heading) then some provider else none

unfoldable pub provider_caption : Passkey → Option String
unfolding caption_of
provider_caption p = caption_of p.provider (display_name p)

module _ (format_date_time format_relative : String → String) where
  unfoldable pub last_used : Passkey → String
  last_used p = elim p.last_used_at [
    | none ↦ "never used"
    | some at ↦ if truthy at then "last used " ++ format_relative at else "never used"
  ]

  unfoldable pub caption : Passkey → String
  unfolding provider_caption last_used
  caption p =
      let known =
        p.algorithm ++ (" · added " ++ (format_date_time p.created_at ++ (" · " ++ last_used p))) in
      elim (provider_caption p) [ none ↦ known | some provider ↦ provider ++ (" · " ++ known) ]

-- `ProviderLogo`; `none` is the panel's own glyph.
unfoldable pub logo_source : Theme → Passkey → Option String
logo_source light p = p.logo
logo_source dark p = elim p.logo_dark [ none ↦ p.logo | some src ↦ some src ]

unfoldable pub logo_shown : Theme → Passkey → (broken : Bool) → Option String
unfolding logo_source
logo_shown theme p broken = elim (logo_source theme p) [
  | none ↦ none
  | some src ↦ if truthy src && not broken then some src else none
]

-- The state of a row: whether its name is being edited, and the text of the field.
pub record RowState : Type 0 where
  pub editing : Bool
  pub label : String

unfoldable pub opened_row : Passkey → RowState
opened_row p = record { editing = false; label = p.label }

-- What happens to a row: the pencil, typing, Cancel, and a rename that succeeds or is refused
pub data RowEvent : Type 0 where
  pencil : RowEvent
  typed : String → RowEvent
  cancelled : RowEvent
  renamed : RowEvent
  refused : RowEvent

-- `p` is the passkey as the list holds it when the event comes.
unfoldable pub row_step : Passkey → RowEvent → RowState → RowState
row_step p pencil r = record r { editing = true }
row_step p (typed text) r = record r { label = text }
row_step p cancelled r = record { editing = false; label = p.label }
row_step p renamed r = record r { editing = false }
row_step p refused r = r

-- The label that Save sends
unfoldable pub saved_label : RowState → String
saved_label r = trim r.label

-- The state of `PasskeyList`: the passkey that a confirmation is open for, and the warning of the last
-- enrolment.
pub record CardState : Type 0 where
  pub pending_delete : Option Passkey
  pub not_discoverable : Bool

-- Add, the enrolment that it starts, the trash of a row, and the buttons of the confirmation with the
-- request that it sends
pub data CardEvent : Type 0 where
  add : CardEvent
  registered : (discoverable : Bool) → CardEvent
  register_failed : CardEvent
  trash : Passkey → CardEvent
  kept : CardEvent
  confirmed : CardEvent
  removed : CardEvent
  remove_failed : CardEvent

unfoldable pub card_step : CardEvent → CardState → CardState
card_step add s = record s { not_discoverable = false }
card_step (registered discoverable) s = record s { not_discoverable = not discoverable }
card_step register_failed s = s
card_step (trash p) s = record s { pending_delete = some p }
card_step kept s = record s { pending_delete = none }
card_step confirmed s = s
card_step removed s = record s { pending_delete = none }
card_step remove_failed s = s

-- The id of which an event asks the panel to delete the passkey
unfoldable pub asked_removal : CardEvent → CardState → Option String
asked_removal confirmed s = elim s.pending_delete [ none ↦ none | some p ↦ some p.id ]
asked_removal _ s = none
