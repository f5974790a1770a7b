-- ===== src/AccessPage/Requests.antt =====
-- How many requests the share page has on its way.
use vlessvmorectl.Base.{
  ℕ, ◌≤◌, String, ◌≡◌, ◌≢◌, refl, true, List, [], ◌∷◌, length, ◌⊎◌, inl, inr, truthy, arith, subst,
  ap,
}
use vlessvmorectl.Errors.{
  aborted, refused, not_found, bad_request, conflict, forbidden, server_error, unreachable,
  unauthorized,
}
use vlessvmorectl.AccessPage.{
  AccessState, loading, incomplete, loaded, broken, AccessPage, AccessError, vless, other,
  opened_page, load, forget, on_outcome, on_refused, on_data, can_reload, Reached, appeared,
  pressed, settled,
}

forget_first : (k : ℕ) → forget k (k ∷ []) ≡ []
unfolding forget
forget_first k = ground arith

module _ {Data : Type 0} where
  -- One request is on its way while the page loads, and none at any other time.
  abbrev pub IsWaited : AccessState Data → List ℕ → Type 0
  IsWaited loading [] = ⊥
  IsWaited loading (k ∷ []) = Unit
  IsWaited loading (_ ∷ _ ∷ _) = ⊥
  IsWaited incomplete waiting = waiting ≡ []
  IsWaited (loaded d) waiting = waiting ≡ []
  IsWaited (broken f) waiting = waiting ≡ []

  load-IsWaited :
      (token : String) (p : AccessPage Data)
      → truthy token ≡ true
      → p.waiting ≡ []
      → IsWaited (load token p).state (load token p).waiting
  unfolding load
  load-IsWaited token p t e = rw t (rw e tt)

  reload_idle :
      (s : AccessState Data) (waiting : List ℕ)
      → can_reload s ≡ true
      → IsWaited s waiting
      → waiting ≡ []
  unfolding can_reload
  reload_idle loading waiting c h = cc
  reload_idle incomplete waiting c h = h
  reload_idle (loaded d) waiting c h = h
  reload_idle (broken f) waiting c h = h

  only_one : (s : AccessState Data) (k : ℕ) (rest : List ℕ) → IsWaited s (k ∷ rest) → rest ≡ []
  only_one loading k [] h = refl
  only_one loading k (j ∷ rest) h = absurd h
  only_one incomplete k rest h = cc
  only_one (loaded d) k rest h = cc
  only_one (broken f) k rest h = cc

  refused-IsWaited :
      (e : AccessError) (p : AccessPage Data)
      → e ≢ vless aborted
      → p.waiting ≡ []
      → IsWaited (on_refused e p).state (on_refused e p).waiting
  unfolding on_refused
  refused-IsWaited other p n h = h
  refused-IsWaited (vless aborted) p n h = absurd (n refl)
  refused-IsWaited (vless (refused l)) p n h = h
  refused-IsWaited (vless (not_found m)) p n h = h
  refused-IsWaited (vless (bad_request m)) p n h = h
  refused-IsWaited (vless (conflict m)) p n h = h
  refused-IsWaited (vless (forbidden m)) p n h = h
  refused-IsWaited (vless (server_error s m)) p n h = h
  refused-IsWaited (vless (unreachable r m)) p n h = h
  refused-IsWaited (vless (unauthorized a b)) p n h = h

  outcome-IsWaited :
      (now k : ℕ) (o : Data ⊎ AccessError) (p : AccessPage Data)
      → p.waiting ≡ k ∷ []
      → (o ≡ inr (vless aborted) → ⊥)
      → IsWaited (on_outcome now k o p).state (on_outcome now k o p).waiting
  unfolding on_outcome on_data
  outcome-IsWaited now k (inl d) p w n = rw w (forget_first k)
  outcome-IsWaited now k (inr e) p w n =
      refused-IsWaited e (record p { waiting = forget k p.waiting }) (λ h. n (ap inr h))
        (rw w (forget_first k))

  Reached-IsWaited :
      {token : String} {p : AccessPage Data}
      → truthy token ≡ true
      → Reached token p
      → IsWaited p.state p.waiting
  Reached-IsWaited {token} t appeared = load-IsWaited token opened_page t refl
  Reached-IsWaited {token} t (pressed {p} c r) =
      load-IsWaited token p t (reload_idle p.state p.waiting c (Reached-IsWaited t r))
  Reached-IsWaited t (settled {p} now k rest o w n r) =
      let h = subst (λ ws. IsWaited p.state ws) w (Reached-IsWaited t r) in
      outcome-IsWaited now k o p (rw (only_one p.state k rest h) at w) n

  waited_length :
      (s : AccessState Data) (waiting : List ℕ) → IsWaited s waiting → length waiting ≤ 1
  waited_length loading [] h = absurd h
  waited_length loading (k ∷ []) h = omega arith
  waited_length loading (k ∷ j ∷ rest) h = absurd h
  waited_length incomplete waiting h = rw h (omega arith)
  waited_length (loaded d) waiting h = rw h (omega arith)
  waited_length (broken f) waiting h = rw h (omega arith)

  settled_idle :
      (s : AccessState Data) (waiting : List ℕ) → IsWaited s waiting → s ≢ loading → waiting ≡ []
  settled_idle loading waiting h n = absurd (n refl)
  settled_idle incomplete waiting h n = h
  settled_idle (loaded d) waiting h n = h
  settled_idle (broken f) waiting h n = h

  -- However often Refresh and Retry are pressed, a share page with a token never has two requests on
  -- their way, and it has none once it shows data or an error: no late answer replaces a newer one.
  pub Reached-waiting :
      (token : String) (p : AccessPage Data)
      → truthy token ≡ true
      → Reached token p
      → (length p.waiting ≤ 1) × (p.state ≢ loading → p.waiting ≡ [])
  Reached-waiting token p t r =
      let h = Reached-IsWaited t r in
      (waited_length p.state p.waiting h, settled_idle p.state p.waiting h)
