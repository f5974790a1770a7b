-- ===== src/Dialogs.antt =====
-- web/src/components/ui.tsx: the dialogs. A dialog element is known by a number; `open_dialogs` are
-- those that are open, in document order, and a key press goes from the dialog around the focus to the
-- dialogs around that.
pub mod Escape
pub mod Delete
mod Tests
use vlessvmorectl.Base.{
  ℕ, String, Bool, true, false, not, ◌&&◌, ◌||◌, Option, none, some, List, [], ◌∷◌, keep, ◌+◌, ◌==◌,
  str_eq, if◌then◌else◌,
}

-- The last of a list
unfoldable pub last_open : List ℕ → Option ℕ
last_open [] = none
last_open (x ∷ []) = some x
last_open (x ∷ y ∷ xs) = last_open (y ∷ xs)

abbrev is_dialog : Option ℕ → ℕ → Bool
is_dialog none d = false
is_dialog (some e) d = e == d

-- `onKeyDown` of dialog `d`: whether it calls `onClose`
unfoldable pub on_key_down : (key : String) → (open_dialogs : List ℕ) → ℕ → Bool
unfolding last_open
on_key_down key open_dialogs d = str_eq key "Escape" && is_dialog (last_open open_dialogs) d

-- The dialogs on the way of a key press whose `onClose` is called
unfoldable pub closed_by_key : (key : String) → (open_dialogs path : List ℕ) → List ℕ
unfolding on_key_down
closed_by_key key open_dialogs path = keep (on_key_down key open_dialogs) path

-- `onClose` and `onClick`: the dialog's own event, not that of a nested one
unfoldable pub on_own_event : (target current_target : ℕ) → Bool
on_own_event target current_target = target == current_target

pub data DialogCall : Type 0 where
  show_modal close nothing : DialogCall

-- The effect on `open`: what it calls on the element
unfoldable pub open_effect : (is_open el_open : Bool) → DialogCall
open_effect is_open el_open =
    if is_open && not el_open then show_modal else if not is_open && el_open then close else nothing

-- ConfirmDelete: whether it is open, what is typed, and how often `onConfirm` was called
pub record Deletion : Type 0 where
  pub is_open : Bool
  pub text : String
  pub confirmed : ℕ

pub data DeletionEvent : Type 0 where
  rendered : (is_open : Bool) → DeletionEvent
  typed : String → DeletionEvent
  pressed : (busy : Bool) → DeletionEvent

-- A render with the effect on `open`, which runs only where `open` has changed
unfoldable pub render_deletion : Bool → Deletion → Deletion
render_deletion is_open s =
    if is_open && not s.is_open
    then record s { is_open = true; text = "" }
    else record s { is_open = is_open }

-- The `disabled` of the Delete button
unfoldable pub delete_disabled : (name : String) → (busy : Bool) → Deletion → Bool
delete_disabled name busy s = not (str_eq s.text name) || busy

unfoldable pub deletion_step : (name : String) → DeletionEvent → Deletion → Deletion
unfolding render_deletion delete_disabled
deletion_step name (rendered is_open) s = render_deletion is_open s
deletion_step name (typed text) s = record s { text = text }
deletion_step name (pressed busy) s =
    if delete_disabled name busy s then s else record s { confirmed = s.confirmed + 1 }

unfoldable pub deletion_run : (name : String) → List DeletionEvent → Deletion → Deletion
unfolding deletion_step
deletion_run name [] s = s
deletion_run name (e ∷ es) s = deletion_run name es (deletion_step name e s)
