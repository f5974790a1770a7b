-- ===== src/AttachEntry/Submission.antt =====
-- What one submission sends, and what it leaves picked.
use mathlib.Core.List.{append_assoc, append-nil}
use vlessvmorectl.Base.{
  ℕ, ◌≤◌, String, ◌≡◌, refl, Bool, true, false, ◌||◌, Option, none, some, List, [], ◌∷◌, ◌++◌, keep,
  map, All, is_some, length, ◌==◌, eq_iff, Bool-cases, Option-cases, inl, inr, arith,
}
use vlessvmorectl.CreateUser.{listed}
use vlessvmorectl.AttachEntry.{
  Account, EntryInput, Picker, Attempts, parse_key, pick_input, add_pick, attach_one, attach_all,
  finish_submit, submit_picks,
}
use vlessvmorectl.AttachEntry.Picks.{IsDistinct, listed-append}

module _ {E : Type 0} (describe : Account → E → String) (attach : EntryInput → Option E)
    (d : Picker) where
  -- Whether the account of a key was refused.
  abbrev pub is_refused : String → Bool
  is_refused k = is_some (attach (pick_input d k))

  abbrev pub failure_text : String → String
  failure_text k = elim (attach (pick_input d k)) [ none ↦ "" | some e ↦ describe (parse_key k) e ]

  abbrev Apart : List String → List String → Type 0
  Apart ks s = All (λ k. listed k s ≡ false) ks

  Apart-snoc :
      (k : String) (ks s : List String) → listed k ks ≡ false → Apart ks s → Apart ks (s ++ k ∷ [])
  unfolding listed
  Apart-snoc k [] s n h = tt
  Apart-snoc k (j ∷ ks) s n (p, h) = (
    ground (arith, listed-append j s (k ∷ []), eq_iff j k, eq_iff k j),
    Apart-snoc k ks s (ground arith) h,
  )

  attach_one_attached :
      (k : String) (t : Attempts)
      → attach (pick_input d k) ≡ none
      → attach_one describe attach d k t ≡ record t { requests = t.requests ++ pick_input d k ∷ [] }
  unfolding attach_one
  attach_one_attached k t e = ground (arith, e)

  attach_one_refused :
      (k : String) (t : Attempts) (err : E)
      → attach (pick_input d k) ≡ some err
      → listed k t.still_picked ≡ false
      → attach_one describe attach d k t ≡ record {
        requests = t.requests ++ pick_input d k ∷ [];
        failed = t.failed ++ failure_text k ∷ [];
        still_picked = t.still_picked ++ k ∷ [];
      }
  unfolding attach_one
  attach_one_refused k t err e n = ground (arith, e, n)

  refused_test : (k : String) (err : E) → attach (pick_input d k) ≡ some err → is_refused k ≡ true
  refused_test k err e = rw e refl

  attach_all_lem :
      (ks : List String) (t : Attempts)
      → IsDistinct ks
      → Apart ks t.still_picked
      → attach_all describe attach d ks t ≡ record {
        requests = t.requests ++ map (pick_input d) ks;
        failed = t.failed ++ map failure_text (keep is_refused ks);
        still_picked = t.still_picked ++ keep is_refused ks;
      }
  unfolding attach_all add_pick
  attach_all_lem [] t h a =
      rw (append-nil t.requests, append-nil t.failed, append-nil t.still_picked) refl
  attach_all_lem (k ∷ ks) t (n, h) (p, a) = elim (Option-cases (attach (pick_input d k))) [
    | inl e ↦
        rw
          (
            attach_one_attached k t e,
            e,
            attach_all_lem ks (record t { requests = t.requests ++ pick_input d k ∷ [] }) h a,
            append_assoc t.requests (pick_input d k ∷ []) (map (pick_input d) ks),
          )
          refl
    | inr (err, e) ↦
        rw
          (
            attach_one_refused k t err e p,
            attach_all_lem ks
                (record {
                  requests = t.requests ++ pick_input d k ∷ [];
                  failed = t.failed ++ failure_text k ∷ [];
                  still_picked = t.still_picked ++ k ∷ [];
                })
                h (Apart-snoc k ks t.still_picked n a),
            append_assoc t.requests (pick_input d k ∷ []) (map (pick_input d) ks),
            refused_test k err e,
            append_assoc t.failed (failure_text k ∷ []) (map failure_text (keep is_refused ks)),
            append_assoc t.still_picked (k ∷ []) (keep is_refused ks),
          )
          refl
  ]

  Apart-nil : (ks : List String) → Apart ks []
  unfolding listed
  Apart-nil [] = tt
  Apart-nil (k ∷ ks) = (refl, Apart-nil ks)

  not_zero : (n : ℕ) → 1 ≤ n → (n == 0) ≡ false
  not_zero n h = ground arith

  abbrev all_attempts : Attempts
  all_attempts = record {
    requests = map (pick_input d) d.picked;
    failed = map failure_text (keep is_refused d.picked);
    still_picked = keep is_refused d.picked;
  }

  attempts :
      IsDistinct d.picked
      → attach_all describe attach d d.picked
          (record { requests = []; failed = []; still_picked = [] })
        ≡ all_attempts
  attempts h =
      attach_all_lem d.picked (record { requests = []; failed = []; still_picked = [] }) h
        (Apart-nil d.picked)

  -- What is left of a submission that is sent
  abbrev pub IsLeft : Picker → Type 0
  IsLeft after =
      (after.picked ≡ keep is_refused d.picked)
      × (after.failures ≡ map failure_text (keep is_refused d.picked))
      × (after.closed ≡ (d.closed || length (keep is_refused d.picked) == 0))
      × (after.busy ≡ false)

  IsLeft-finish_submit :
      (ks : List String)
      → keep is_refused d.picked ≡ ks
      → d.busy ≡ false
      → IsLeft (finish_submit all_attempts (map failure_text ks) d)
  unfolding finish_submit
  IsLeft-finish_submit [] e b = ground (arith, e, b)
  IsLeft-finish_submit (k ∷ ks) e b = ground (arith, e, b)

  sent : 1 ≤ length d.picked → d.busy ≡ false → (length d.picked == 0 || d.busy) ≡ false
  sent n b = rw (not_zero (length d.picked) n) b

  -- With at least one pick and no submission under way, every picked account is asked for, in the
  -- order of the picks, and afterwards exactly the refused ones are still picked and named, and the dialog
  -- is closed where none was.
  pub submit_picks-IsLeft :
      IsDistinct d.picked
      → d.busy ≡ false
      → 1 ≤ length d.picked
      → ((submit_picks describe attach d).1 ≡ map (pick_input d) d.picked)
        × IsLeft (submit_picks describe attach d).0
  unfolding submit_picks
  submit_picks-IsLeft h b some_pick =
      rw (attempts h, sent some_pick b)
        (refl, IsLeft-finish_submit (keep is_refused d.picked) refl b)

  unsent : (length d.picked == 0) ≡ true → submit_picks describe attach d ≡ (d, [])
  unfolding submit_picks
  unsent e = rw e refl

  no_picks :
      (ks : List String)
      → (length ks == 0) ≡ true
      → ([] ≡ map (pick_input d) ks) × (ks ≡ keep is_refused ks)
  no_picks [] h = (refl, refl)
  no_picks (k ∷ ks) h = absurd (ground (arith, h))

  -- The same with no pick, where nothing happens.
  pub submit_picks_any :
      IsDistinct d.picked
      → d.busy ≡ false
      → ((submit_picks describe attach d).1 ≡ map (pick_input d) d.picked)
        × ((submit_picks describe attach d).0.picked ≡ keep is_refused d.picked)
        × ((submit_picks describe attach d).0.busy ≡ false)
  submit_picks_any h b = elim (Bool-cases (length d.picked == 0)) [
    | inl e ↦ let (m, k) = no_picks d.picked e in rw (unsent e) (m, k, b)
    | inr e ↦ let (r, l) = submit_picks-IsLeft h b (ground (arith, e)) in (r, l.0, l.3)
  ]
