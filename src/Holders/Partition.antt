-- ===== src/Holders/Partition.antt =====
-- Holders and the others, of subscribers with different ids.
use vlessvmorectl.Base.{
  String, Bool, false, not, ◌||◌, ◌≡◌, ◌≢◌, refl, sym, subst, ap, ap₂, ◌⊎◌, inl, inr, none, some,
  List, [], ◌∷◌, keep, any, find, is_some, In, All, All-In, str_eq, eq_iff, arith, if◌then◌else◌,
  Option-cases, ◌&&◌, true, Bool-cases,
}
use vlessvmorectl.Types.{Subscriber, SubscriberEntry}
use vlessvmorectl.Holders.{Holder, is_held_entry, holder, put_holder, holders, available}

-- No two subscribers have one id.
abbrev pub IsDistinct : List Subscriber → Type 0
IsDistinct [] = Unit
IsDistinct (s ∷ ss) = All (λ t. t.id ≢ s.id) ss × IsDistinct ss

keep_ext :
    {A : Type 0} (p q : A → Bool) (xs : List A)
    → ((x : A) → In x xs → p x ≡ q x)
    → keep p xs ≡ keep q xs
keep_ext p q [] h = refl
keep_ext p q (x ∷ xs) h =
    ap₂ (λ b ys. if b then x ∷ ys else ys) (h x (inl refl)) (keep_ext p q xs (λ y m. h y (inr m)))

module _ (server_id user_id : String) where
  holder_own :
      (s : Subscriber)
      → (holder server_id user_id s ≡ none)
        ⊎ ((h : Holder) × (holder server_id user_id s ≡ some h) × (h.subscriber ≡ s))
  unfolding holder
  holder_own s = elim (Option-cases (find (is_held_entry server_id user_id) s.entries)) [
    | inl e ↦ inl (ground (arith, e))
    | inr (entry, e) ↦ inr (record { subscriber = s; entry_id = entry.id }, ground (arith, e), refl)
  ]

  any-put_holder :
      (k : String) (s : Subscriber) (hs : List Holder)
      → any (λ h. str_eq h.subscriber.id k) (put_holder (holder server_id user_id s) hs) ≡ (
          (is_some (holder server_id user_id s) && str_eq s.id k)
          || any (λ h. str_eq h.subscriber.id k) hs)
  unfolding put_holder
  any-put_holder k s hs = elim (holder_own s) [
    | inl e ↦ rw e refl
    | inr (h, e, o) ↦ rw e (rw o refl)
  ]

  any-holders_none :
      (k : String) (ss : List Subscriber)
      → All (λ t. t.id ≢ k) ss
      → any (λ h. str_eq h.subscriber.id k) (holders server_id user_id ss) ≡ false
  unfolding holders
  any-holders_none k [] h = refl
  any-holders_none k (s ∷ ss) (n, h) = ground (
    arith,
    any-put_holder k s (holders server_id user_id ss),
    eq_iff s.id k,
    any-holders_none k ss h,
  )

  any-holders :
      (ss : List Subscriber) (s : Subscriber)
      → IsDistinct ss
      → In s ss
      → any (λ h. str_eq h.subscriber.id s.id) (holders server_id user_id ss)
        ≡ is_some (holder server_id user_id s)
  unfolding holders
  any-holders [] s d m = elim m [ ]
  any-holders (x ∷ ss) s (n, d) (inl e) =
      subst
        (λ t.
          any (λ h. str_eq h.subscriber.id t.id) (holders server_id user_id (x ∷ ss))
          ≡ is_some (holder server_id user_id t))
        (sym e)
        (ground (
          arith,
          any-put_holder x.id x (holders server_id user_id ss),
          eq_iff x.id x.id,
          any-holders_none x.id ss n,
        ))
  any-holders (x ∷ ss) s (n, d) (inr m) = ground (
    arith,
    any-put_holder s.id x (holders server_id user_id ss),
    eq_iff x.id s.id,
    All-In (λ t. t.id ≢ x.id) s ss n m,
    any-holders ss s d m,
  )

  available_lem :
      (ss : List Subscriber)
      → IsDistinct ss
      → available server_id user_id ss ≡ keep (λ s. not (is_some (holder server_id user_id s))) ss
  unfolding available
  available_lem ss d = keep_ext _ _ ss (λ s m. ap not (any-holders ss s d m))

  -- An entry of the account: the one of that user on that server
  abbrev pub IsOfAccount : SubscriberEntry → Type 0
  IsOfAccount e = (e.server_id ≡ server_id) × (e.vless_user_id ≡ user_id)

  -- Subscribers, in their order, as holders and others: a holder is listed with the id of one of its
  -- entries of the account, and none of another subscriber's entries is of the account.
  pub data Parted : List Subscriber → List Holder → List Subscriber → Type 0 where
    nobody : Parted [] [] []
    held :
        (s : Subscriber) (e : SubscriberEntry) {ss : List Subscriber} {hs : List Holder}
        {os : List Subscriber}
        → In e s.entries
        → IsOfAccount e
        → Parted ss hs os
        → Parted (s ∷ ss) (record { subscriber = s; entry_id = e.id } ∷ hs) os
    free :
        (s : Subscriber) {ss : List Subscriber} {hs : List Holder} {os : List Subscriber}
        → All (λ e. IsOfAccount e → ⊥) s.entries
        → Parted ss hs os
        → Parted (s ∷ ss) hs (s ∷ os)

  IsOfAccount-is_held_entry :
      (e : SubscriberEntry) → is_held_entry server_id user_id e ≡ true → IsOfAccount e
  unfolding is_held_entry
  IsOfAccount-is_held_entry e h =
      ground (arith, eq_iff e.server_id server_id, eq_iff e.vless_user_id user_id)

  is_held_entry-IsOfAccount :
      (e : SubscriberEntry) → is_held_entry server_id user_id e ≡ false → IsOfAccount e → ⊥
  unfolding is_held_entry
  is_held_entry-IsOfAccount e h (a, b) =
      ground (arith, eq_iff e.server_id server_id, eq_iff e.vless_user_id user_id)

  -- What `find` finds of the entries
  found_entry :
      (es : List SubscriberEntry)
      → ((find (is_held_entry server_id user_id) es ≡ none) × All (λ e. IsOfAccount e → ⊥) es)
        ⊎ ((e : SubscriberEntry) × (find (is_held_entry server_id user_id) es ≡ some e)
            × In e es
            × IsOfAccount e)
  found_entry [] = inl (refl, tt)
  found_entry (e ∷ es) = elim (Bool-cases (is_held_entry server_id user_id e)) [
    | inl h ↦ inr (e, rw h refl, inl refl, IsOfAccount-is_held_entry e h)
    | inr h ↦ elim (found_entry es) [
      | inl (n, all) ↦ inl (rw h n, (is_held_entry-IsOfAccount e h, all))
      | inr (f, q, m, o) ↦ inr (f, rw h q, inr m, o)
    ]
  ]

  -- What a subscriber is, by the entries that it has
  holder-cases :
      (s : Subscriber)
      → ((holder server_id user_id s ≡ none) × All (λ e. IsOfAccount e → ⊥) s.entries)
        ⊎ ((e : SubscriberEntry) × (holder server_id user_id s
              ≡ some (record { subscriber = s; entry_id = e.id }))
            × In e s.entries
            × IsOfAccount e)
  unfolding holder
  holder-cases s = elim (found_entry s.entries) [
    | inl (n, all) ↦ inl (ground (arith, n), all)
    | inr (e, q, m, o) ↦ inr (e, ground (arith, q), m, o)
  ]

  Parted-keep :
      (ss : List Subscriber)
      → Parted ss
          (holders server_id user_id ss)
          (keep (λ s. not (is_some (holder server_id user_id s))) ss)
  unfolding holders put_holder
  Parted-keep [] = nobody
  Parted-keep (s ∷ ss) = elim (holder-cases s) [
    | inl (n, all) ↦ rw n (free s all (Parted-keep ss))
    | inr (e, q, m, o) ↦ rw q (held s e m o (Parted-keep ss))
  ]

  -- Subscribers with different ids are parted into those that hold the account, each with the id of
  -- its entry, and those that do not, which are the ones that are offered; both in their order.
  pub available-Parted :
      (ss : List Subscriber)
      → IsDistinct ss
      → Parted ss (holders server_id user_id ss) (available server_id user_id ss)
  available-Parted ss d = rw (available_lem ss d) (Parted-keep ss)
