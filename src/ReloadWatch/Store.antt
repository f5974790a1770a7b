-- ===== src/ReloadWatch/Store.antt =====
-- The reload watch of web/src/queries/reloadWatch.ts as a store: what a mark and a clear change, whom
-- they call, and which problem is shown.
use vlessvmorectl.Base.{
  ℕ, ◌<◌, String, ◌≡◌, ◌↔◌, refl, true, false, Option, none, some, List, [], ◌∷◌, any, keep, not,
  ◌==◌, lookup-insert, lookup-remove, arith, str_eq, eq_iff, if◌then◌else◌, truthy, Option-cases,
  Bool-cases, inl, inr, is_some,
}
use vlessvmorectl.ReloadWatch.{
  ReloadProblem, ReloadWatch, subscribe, unsubscribe, get, mark, clear, is_superseded,
  use_reload_problem,
}

module _ (w : ReloadWatch) (k j : String) where
  -- A mark is what its own node shows afterwards, changes no other node's problem, and calls every
  -- listener.
  pub get-mark :
      (error : String) (now : ℕ)
      → (get (mark k error now w).0 j
          ≡ (if str_eq k j then some (record { marked_at = now; error = error }) else get w j))
        × ((mark k error now w).1 ≡ w.listeners)
        × ((mark k error now w).0.listeners ≡ w.listeners)
  unfolding get mark
  get-mark error now = (lookup-insert k j _ w.problems, refl, refl)

  -- A clear leaves its own node with no problem, changes no other node's, and calls the listeners
  -- exactly when there was something to clear.
  pub get-clear :
      (get (clear k w).0 j ≡ (if str_eq k j then none else get w j))
      × ((clear k w).1 ≡ (if is_some (get w k) then w.listeners else []))
      × ((clear k w).0.listeners ≡ w.listeners)
  unfolding get clear
  get-clear = ground (arith, lookup-remove k j w.problems, eq_iff k j)

any-keep : (l : ℕ) (xs : List ℕ) → any (λ k. k == l) (keep (λ k. not (k == l)) xs) ≡ false
any-keep l [] = refl
any-keep l (x ∷ xs) = ground (arith, any-keep l xs)

-- After subscribing and unsubscribing a listener it is called no more.
pub unsubscribe-subscribe :
    (l : ℕ) (w : ReloadWatch) → any (λ k. k == l) (unsubscribe l (subscribe l w)).listeners ≡ false
unfolding unsubscribe subscribe
unsubscribe-subscribe l w = any-keep l (subscribe l w).listeners

module _ (date_parse : String → Option ℕ) where
  -- A reload was read that is later than the mark.
  abbrev pub ReadLater : Option String → ReloadProblem → Type 0
  ReadLater last p =
      (iso : String) × (at : ℕ) × (last ≡ some iso)
      × (truthy iso ≡ true)
      × (date_parse iso ≡ some at)
      × (p.marked_at < at)

  superseded_iff :
      (last : Option String) (p : ReloadProblem)
      → (is_superseded date_parse last p ≡ true) ↔ ReadLater last p
  unfolding is_superseded
  superseded_iff none p = (λ h. cc, λ h. ground arith)
  superseded_iff (some iso) p = (
    λ h. elim (Option-cases (date_parse iso)) [
      | inl e ↦ absurd (ground arith)
      | inr (at, e) ↦ (iso, at, refl, ground arith, e, ground arith)
    ],
    λ h. ground arith,
  )

  -- Of a node with a marked problem, the problem is shown exactly when no reload later than the mark
  -- has been read, and a clear is queued exactly when one has.
  pub use_reload_problem_iff :
      (w : ReloadWatch) (id : String) (last : Option String) (p : ReloadProblem)
      → get w id ≡ some p
      → (((use_reload_problem date_parse w id last).0 ≡ some p) ↔ (¬ ReadLater last p))
        × (((use_reload_problem date_parse w id last).1 ≡ true) ↔ ReadLater last p)
  unfolding use_reload_problem
  use_reload_problem_iff w id last p e =
      let (there, back) = superseded_iff last p in
      elim (Bool-cases (is_superseded date_parse last p)) [
        | inl s ↦ (
          (λ h. absurd (ground arith), λ h. absurd (h (there s))),
          (λ h. there s, λ h. ground arith),
        )
        | inr s ↦ (
          (λ h later. cc (back later), λ h. ground arith),
          (λ h. absurd (ground arith), λ later. absurd (cc (back later))),
        )
      ]
