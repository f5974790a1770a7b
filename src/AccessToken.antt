-- ===== src/AccessToken.antt =====
-- web/src/access/token.ts: the share token in the address of the share page. A text is the list of its
-- character codes; `decodeURIComponent`, which throws on a broken escape, is a parameter.
pub mod Links
mod Tests
use vlessvmorectl.Base.{
  ℕ, Bool, true, false, ◌&&◌, ◌||◌, not, Option, none, some, List, [], ◌∷◌, ◌==◌, if◌then◌else◌,
  any,
}
use mathlib.Core.Option
use vlessvmorectl.Bytes.{Codes, codes, drop_spaces, drop_spaces_end}

-- What `.` of a pattern does not match
unfoldable pub is_line_end : ℕ → Bool
is_line_end c = c == 10 || c == 13 || c == 0x2028 || c == 0x2029

unfoldable pub drop_prefix : Codes → Codes → Option Codes
drop_prefix [] s = some s
drop_prefix (p ∷ ps) [] = none
drop_prefix (p ∷ ps) (c ∷ s) = let rest = drop_prefix ps s in if p == c then rest else none

-- `(?:\/(.*))?$`: the group, empty when it is absent
unfoldable pub match_rest : Codes → Option Codes
unfolding is_line_end
match_rest [] = some []
match_rest (c ∷ s) = if c == b'/' && not (any is_line_end s) then some s else none

unfoldable pub captured : Option Codes → Option Codes
unfolding match_rest
captured none = none
captured (some s) = match_rest s

-- `.split("/")[0]`
unfoldable pub first_segment : Codes → Codes
first_segment [] = []
first_segment (c ∷ s) = let rest = first_segment s in if c == b'/' then [] else c ∷ rest

-- The token in what the pattern has captured
unfoldable pub token_in : (Codes → Option Codes) → Option Codes → Option Codes
unfolding first_segment drop_spaces drop_spaces_end
token_in decode_uri_component none = some []
token_in decode_uri_component (some s) =
    Option.map (λ t. drop_spaces_end (drop_spaces t)) (decode_uri_component (first_segment s))

unfoldable pub token_from_path : (Codes → Option Codes) → Codes → Option Codes
unfolding drop_prefix captured token_in
token_from_path decode_uri_component pathname =
    token_in decode_uri_component (captured (drop_prefix (codes "/access") pathname))
