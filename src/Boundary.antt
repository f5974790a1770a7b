-- ===== src/Boundary.antt =====
-- ErrorBoundary of web/src/components/Boundary.tsx: what it keeps, and when it lets go of an error.
-- `object_is` stands for `Object.is` on the reset keys; the call of `onReset` is counted, since all it
-- does is to tell the query client that its errors may be fetched again.
pub mod Latch
use vlessvmorectl.Base.{
  ℕ, ◌+◌, Bool, false, not, ◌||◌, ◌&&◌, Option, none, some, List, [], ◌∷◌, length, ◌==◌, is_some,
  if◌then◌else◌,
}

pub record BoundaryState (K E : Type 0) : Type 0 where
  pub error : Option E
  pub prev_keys : List K
  pub resets : ℕ

-- What happens to a boundary: a child throws, a render is committed with reset keys, Retry is pressed.
pub data BoundaryEvent (K E : Type 0) : Type 0 where
  threw : E → BoundaryEvent K E
  rendered : List K → BoundaryEvent K E
  retried : BoundaryEvent K E

module _ {K E : Type 0} where
  unfoldable pub mounted : List K → BoundaryState K E
  mounted keys = record { error = none; prev_keys = keys; resets = 0 }

  unfoldable pub derived_state_from_error : E → BoundaryState K E → BoundaryState K E
  derived_state_from_error e s = record s { error = some e }

  unfoldable pub reset_boundary : BoundaryState K E → BoundaryState K E
  reset_boundary s = record s { error = none; resets = s.resets + 1 }

module _ {K : Type 0} (object_is : K → K → Bool) where
  -- `a.some((v, i) => !Object.is(v, b[i]))` for lists of one length
  unfoldable pub differs : List K → List K → Bool
  differs [] b = false
  differs (v ∷ a) [] = false
  differs (v ∷ a) (w ∷ b) = not (object_is v w) || differs a b

  unfoldable pub keys_changed : List K → List K → Bool
  unfolding differs
  keys_changed a b = not (length a == length b) || differs a b

module _ {K E : Type 0} (object_is : K → K → Bool) where
  unfoldable pub component_did_update : List K → BoundaryState K E → BoundaryState K E
  unfolding keys_changed reset_boundary
  component_did_update reset_keys s =
      if is_some s.error && keys_changed object_is s.prev_keys reset_keys
      then reset_boundary (record s { prev_keys = reset_keys })
      else record s { prev_keys = reset_keys }

  unfoldable pub boundary_step : BoundaryEvent K E → BoundaryState K E → BoundaryState K E
  unfolding component_did_update derived_state_from_error reset_boundary
  boundary_step (threw e) s = derived_state_from_error e s
  boundary_step (rendered keys) s = component_did_update keys s
  boundary_step retried s = reset_boundary s

  unfoldable pub boundary_run : List (BoundaryEvent K E) → BoundaryState K E → BoundaryState K E
  unfolding boundary_step
  boundary_run [] s = s
  boundary_run (e ∷ es) s = boundary_run es (boundary_step e s)
