-- ===== src/Boundary/Latch.antt =====
-- An error boundary latches.
use vlessvmorectl.Base.{
  ◌≡◌, refl, Bool, true, false, Option, some, List, [], ◌∷◌, All, arith, ap, ap₂, ◌∙◌,
}
use vlessvmorectl.Boundary.{
  BoundaryState, BoundaryEvent, threw, rendered, retried, differs, keys_changed,
  component_did_update, derived_state_from_error, boundary_step, boundary_run,
}

-- The error that was thrown last, and the first one where none was.
abbrev pub latest : {K E : Type 0} → Option E → List (BoundaryEvent K E) → Option E
latest o [] = o
latest o (threw e ∷ es) = latest (some e) es
latest o (rendered keys ∷ es) = latest o es
latest o (retried ∷ es) = latest o es

-- Retry is not pressed, and the reset keys stay as they are.
abbrev pub IsQuiet : {K E : Type 0} → List K → BoundaryEvent K E → Type 0
IsQuiet keys (threw e) = Unit
IsQuiet keys (rendered ks) = ks ≡ keys
IsQuiet keys retried = ⊥

module _ {K : Type 0} (object_is : K → K → Bool) (is_self : (k : K) → object_is k k ≡ true) where
  differs_self : (keys : List K) → differs object_is keys keys ≡ false
  unfolding differs
  differs_self [] = refl
  differs_self (k ∷ keys) = ground (arith, is_self k, differs_self keys)

  keys_changed_self : (keys : List K) → keys_changed object_is keys keys ≡ false
  unfolding keys_changed
  keys_changed_self keys = ground (arith, differs_self keys)

  -- A render with the same reset keys changes nothing.
  pub did_update_same :
      {E : Type 0} (keys ks : List K) (s : BoundaryState K E)
      → s.prev_keys ≡ keys
      → ks ≡ keys
      → ((component_did_update object_is ks s).error ≡ s.error)
        × ((component_did_update object_is ks s).prev_keys ≡ keys)
        × ((component_did_update object_is ks s).resets ≡ s.resets)
  unfolding component_did_update
  did_update_same keys ks s p u =
      let e : keys_changed object_is s.prev_keys ks ≡ false =
        ap₂ (keys_changed object_is) p u ∙ keys_changed_self keys in
      ground (arith, e, u)

  -- As long as Retry is not pressed and the reset keys stay as they are, a boundary holds the error that
  -- was thrown last, and is never reset.
  pub error-boundary_run :
      {E : Type 0} (keys : List K) (es : List (BoundaryEvent K E)) (s : BoundaryState K E)
      → s.prev_keys ≡ keys
      → All (IsQuiet keys) es
      → ((boundary_run object_is es s).error ≡ latest s.error es)
        × ((boundary_run object_is es s).resets ≡ s.resets)
  unfolding boundary_run boundary_step derived_state_from_error
  error-boundary_run keys [] s p q = (refl, refl)
  error-boundary_run keys (threw e ∷ es) s p (u, q) =
      error-boundary_run keys es (record s { error = some e }) p q
  error-boundary_run keys (rendered ks ∷ es) s p (u, q) =
      let t = component_did_update object_is ks s in
      let (e, k, r) = did_update_same keys ks s p u in
      let (x, y) = error-boundary_run keys es t k q in (x ∙ ap (λ o. latest o es) e, y ∙ r)
  error-boundary_run keys (retried ∷ es) s p (u, q) = absurd u
