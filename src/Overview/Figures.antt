-- ===== src/Overview/Figures.antt =====
-- What the figures of a card rest on.
use mathlib.Core.List.{Perm, Permᴰ}
use mathlib.Core.List.Permᴰ as Listed
use mathlib.Core.Logic.{∥∥₁_elim}
use native.Mathlib.Nat.{ℕ_set}
use vlessvmorectl.Base.{
  ℕ, ◌+◌, String, ◌≡◌, refl, ◌∙◌, sym, ap, Bool, Option, List, [], ◌∷◌, length, keep, map, sum,
  arith, if◌then◌else◌,
}
use vlessvmorectl.Types.{VlessUser}
use vlessvmorectl.Format.{Count, TimeUnit}
use vlessvmorectl.Overview.{used_by, traffic_from, is_problem, ServerStatus, server_card}

traffic_from-sum :
    (n : ℕ) (users : List VlessUser) → traffic_from n users ≡ n + sum (map used_by users)
unfolding traffic_from
traffic_from-sum n [] = omega arith
traffic_from-sum n (u ∷ users) = omega (arith, traffic_from-sum (n + used_by u) users)

sum-listed : {A : Type 0} (f : A → ℕ) {l r : List A} → Permᴰ l r → sum (map f l) ≡ sum (map f r)
sum-listed f Listed.nil = refl
sum-listed f (Listed.cons e d) = omega (arith, ap f e, sum-listed f d)
sum-listed f (Listed.swap e g) = omega (arith, ap f e, ap f g)
sum-listed f (Listed.trans d c) = sum-listed f d ∙ sum-listed f c

sum-perm : {A : Type 0} (f : A → ℕ) (l r : List A) → Perm l r → sum (map f l) ≡ sum (map f r)
sum-perm f l r h = ∥∥₁_elim h (ℕ_set (sum (map f l)) (sum (map f r))) (sum-listed f)

module _ {A : Type 0} (p : A → Bool) where
  abbrev one_if : A → ℕ
  one_if a = if p a then 1 else 0

  length-keep : (l : List A) → length (keep p l) ≡ sum (map one_if l)
  length-keep [] = refl
  length-keep (a ∷ l) = ground (arith, length-keep l)

module _ (date_parse : String → Option ℕ) (rtf_format : Count → TimeUnit → String) (now : ℕ) where
  -- The card of a node forgets the order in which the node lists its users, and its traffic is that of
  -- all of them together.
  server_card-eq_of_perm :
      (status : ServerStatus) (l r : List VlessUser)
      → Perm l r
      → (server_card date_parse rtf_format now status l
          ≡ server_card date_parse rtf_format now status r)
        × ((server_card date_parse rtf_format now status l).traffic ≡ sum (map used_by l))
  unfolding server_card
  server_card-eq_of_perm status l r h =
      let test = is_problem date_parse rtf_format now in
      let counted = length-keep test l ∙ sum-perm (one_if test) l r h ∙ sym (length-keep test r) in
      let added =
        traffic_from-sum 0 l
        ∙ ap (λ n. 0 + n) (sum-perm used_by l r h)
        ∙ sym (traffic_from-sum 0 r) in
      (rw (counted, added) refl, omega (arith, traffic_from-sum 0 l))
