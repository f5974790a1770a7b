-- ===== src/AttachEntry/Retry.antt =====
-- What a second submission sends after a first one.
use vlessvmorectl.Base.{
  String, ◌≡◌, refl, false, Option, List, [], ◌∷◌, keep, map, ap, ◌∙◌, sym, subst,
}
use vlessvmorectl.AttachEntry.{Account, EntryInput, Picker, parse_key, pick_input, submit_picks}
use vlessvmorectl.AttachEntry.Picks.{IsDistinct, keep-IsDistinct}
use vlessvmorectl.AttachEntry.Submission.{is_refused, submit_picks_any}

module _ {E : Type 0} (describe : Account → E → String) (first second : EntryInput → Option E)
    (d : Picker) where
  accounts-inputs :
      (x : Picker) (ks : List String)
      → map (λ r. r.account) (map (pick_input x) ks) ≡ map parse_key ks
  unfolding pick_input
  accounts-inputs x [] = refl
  accounts-inputs x (k ∷ ks) = ap (λ t. parse_key k ∷ t) (accounts-inputs x ks)

  -- With distinct picks and no submission under way, a second attempt, whatever is answered by then, asks
  -- exactly for the accounts that the first one was refused, in the same order.
  pub submit_picks-submit_picks :
      IsDistinct d.picked
      → d.busy ≡ false
      → map (λ r. r.account) (submit_picks describe second (submit_picks describe first d).0).1
        ≡ map parse_key (keep (is_refused describe first d) d.picked)
  submit_picks-submit_picks h b =
      let after = (submit_picks describe first d).0 in
      let (r, p, c) = submit_picks_any describe first d h b in
      let distinct : IsDistinct after.picked =
        subst IsDistinct (sym p) (keep-IsDistinct (is_refused describe first d) d.picked h) in
      ap (map (λ r. r.account)) (submit_picks_any describe second after distinct c).0
      ∙ accounts-inputs after after.picked
      ∙ ap (map parse_key) p
