-- ===== src/AttachEntry/Keys.antt =====
-- The keys of the picked accounts.
use Prim.Native.Char.{nul}
use Prim.Native.String.append
use Prim.Native.String.{◌++◌ as ◌+++◌}
use vlessvmorectl.Base.{String, ◌≡◌, refl, true, false, ap, ◌∙◌, arith}
use vlessvmorectl.AttachEntry.{sep, pick_key, has_sep, before_sep, after_sep, parse_key}

sep-append : (t : String) → sep +++ t ≡ String.◌∷◌ nul t
sep-append t = append.cons nul "" t ∙ ap (λ (r : String). String.◌∷◌ nul r) (append.nil t)

-- A text with the separator and another text behind it.
abbrev joined : String → String → String
joined s t = s +++ String.◌∷◌ nul t

pick_key-joined : (s t : String) → pick_key s t ≡ joined s t
unfolding pick_key
pick_key-joined s t = ap (λ (r : String). s +++ r) (sep-append t)

has_sep-joined : (s t : String) → has_sep (joined s t) ≡ true
unfolding has_sep
has_sep-joined String.[] t = rw (append.nil (String.◌∷◌ nul t)) refl
has_sep-joined (String.◌∷◌ c s) t =
    rw (append.cons c s (String.◌∷◌ nul t)) (ground (arith, has_sep-joined s t))

before_sep-joined : (s t : String) → has_sep s ≡ false → before_sep (joined s t) ≡ s
unfolding has_sep before_sep
before_sep-joined String.[] t h = rw (append.nil (String.◌∷◌ nul t)) refl
before_sep-joined (String.◌∷◌ c s) t h =
    rw (append.cons c s (String.◌∷◌ nul t)) (ground (arith, before_sep-joined s t))

after_sep-joined : (s t : String) → has_sep s ≡ false → after_sep (joined s t) ≡ t
unfolding has_sep after_sep
after_sep-joined String.[] t h = rw (append.nil (String.◌∷◌ nul t)) refl
after_sep-joined (String.◌∷◌ c s) t h =
    rw (append.cons c s (String.◌∷◌ nul t)) (ground (arith, after_sep-joined s t))

-- The key of an account is read back as that account, where the id of the server has no separator.
parse_key-pick_key :
    (server_id user_id : String)
    → has_sep server_id ≡ false
    → parse_key (pick_key server_id user_id) ≡ record { server_id = server_id; user_id = user_id }
unfolding parse_key
parse_key-pick_key s u h =
    rw (pick_key-joined s u, has_sep-joined s u, before_sep-joined s u h, after_sep-joined s u h)
      refl
