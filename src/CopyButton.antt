-- ===== src/CopyButton.antt =====
-- web/src/components/ui.tsx: the copy button with its timer, the masking of a secret, and the joining of
-- class names. Time is a number of milliseconds.
pub mod Timer
mod Tests
use Prim.Native.String.{◌++◌}
use vlessvmorectl.Base.{
  ℕ, ◌+◌, String, Bool, true, false, not, ◌||◌, Option, none, some, List, [], ◌∷◌, truthy, str_eq,
  find, leb, if◌then◌else◌,
}

-- `parts.filter(Boolean)`; `none` is false, null or undefined.
unfoldable pub class_parts : List (Option String) → List String
class_parts [] = []
class_parts (none ∷ ps) = class_parts ps
class_parts (some p ∷ ps) = if truthy p then p ∷ class_parts ps else class_parts ps

-- `join(" ")`
unfoldable pub join_blank : List String → String
join_blank [] = ""
join_blank (p ∷ []) = p
join_blank (p ∷ q ∷ ps) = p ++ (" " ++ join_blank (q ∷ ps))

unfoldable pub cx : List (Option String) → String
unfolding class_parts join_blank
cx parts = join_blank (class_parts parts)

pub data CopyState : Type 0 where
  idle copied unavailable : CopyState

-- The state with the timer that its effect has set
pub record Copier : Type 0 where
  pub state : CopyState
  pub deadline : Option ℕ

abbrev pub shown_ms : ℕ
shown_ms = 2500

abbrev same_state : CopyState → CopyState → Bool
same_state idle idle = true
same_state copied copied = true
same_state unavailable unavailable = true
same_state _ _ = false

-- `setState`, with the effect on the state: its cleanup, and the timer of the new state
unfoldable pub set_copy_state : (now : ℕ) → CopyState → Copier → Copier
set_copy_state now idle c =
    if same_state c.state idle then c else record { state = idle; deadline = none }
set_copy_state now s c =
    if same_state c.state s then c else record { state = s; deadline = some (now + shown_ms) }

pub data CopyEvent : Type 0 where
  no_clipboard written rejected passed : CopyEvent

abbrev pub is_due : ℕ → Option ℕ → Bool
is_due now none = false
is_due now (some t) = leb t now

-- What happens at an instant: a press without the clipboard's API, the outcome of a write, or nothing
-- but that time has passed, when a timer that is due fires
unfoldable pub copy_step : (now : ℕ) → CopyEvent → Copier → Copier
unfolding set_copy_state
copy_step now no_clipboard c = set_copy_state now unavailable c
copy_step now written c = set_copy_state now copied c
copy_step now rejected c = set_copy_state now unavailable c
copy_step now passed c = if is_due now c.deadline then set_copy_state now idle c else c

unfoldable pub copy_text : (label : String) → CopyState → String
copy_text label copied = "Copied"
copy_text label unavailable = "Select it"
copy_text label idle = label

-- `selectNearbyValue`: the first element whose text is the value
pub record Shown : Type 0 where
  pub is_input : Bool
  pub text : String

unfoldable pub select_nearby_value : String → List Shown → Option Shown
select_nearby_value value elements = find (λ e. str_eq e.text value) elements

-- `SecretField`: whether the value is legible
unfoldable pub secret_shown : (masked revealed : Bool) → Bool
secret_shown masked revealed = not masked || revealed
