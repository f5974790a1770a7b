-- ===== src/AccessToken/Links.antt =====
-- Which part of the address of a share page is its token.
use mathlib.Core.Option
use vlessvmorectl.Base.{◌≡◌, refl, false, Option, some, [], ◌∷◌, ◌++◌, ◌==◌, All, any, ap, ◌∙◌, sym}
use vlessvmorectl.Bytes.{Codes, codes, drop_spaces, drop_spaces_end}
use vlessvmorectl.AccessToken.{is_line_end, match_rest, first_segment, token_in, token_from_path}

abbrev pub IsSegment : Codes → Type 0
IsSegment = All (λ c. (c == b'/') ≡ false)

first_segment-append :
    (segment more : Codes) → IsSegment segment → first_segment (segment ++ b'/' ∷ more) ≡ segment
unfolding first_segment
first_segment-append [] more h = refl
first_segment-append (c ∷ s) more (p, h) = rw p (ap (λ r. c ∷ r) (first_segment-append s more h))

first_segment_whole : (segment : Codes) → IsSegment segment → first_segment segment ≡ segment
unfolding first_segment
first_segment_whole [] h = refl
first_segment_whole (c ∷ s) (p, h) = rw p (ap (λ r. c ∷ r) (first_segment_whole s h))

match_rest_lem : (s : Codes) → any is_line_end s ≡ false → match_rest (b'/' ∷ s) ≡ some s
unfolding match_rest
match_rest_lem s h = rw h refl

token_of :
    (decode : Codes → Option Codes) (s segment : Codes)
    → any is_line_end s ≡ false
    → first_segment s ≡ segment
    → token_from_path decode (codes "/access/" ++ s)
      ≡ Option.map (λ t. drop_spaces_end (drop_spaces t)) (decode segment)
unfolding token_from_path
token_of decode s segment h e =
    ap (token_in decode) (match_rest_lem s h)
    ∙ ap (λ t. Option.map (λ u. drop_spaces_end (drop_spaces u)) (decode t)) e

-- On one line, the token of /access/<segment> is the segment, decoded and trimmed, and what follows the
-- segment after another slash changes nothing.
token_from_path_segment :
    (decode : Codes → Option Codes) (segment more : Codes)
    → IsSegment segment
    → any is_line_end segment ≡ false
    → any is_line_end (segment ++ b'/' ∷ more) ≡ false
    → (token_from_path decode (codes "/access/" ++ segment)
        ≡ Option.map (λ t. drop_spaces_end (drop_spaces t)) (decode segment))
      × (token_from_path decode (codes "/access/" ++ segment ++ b'/' ∷ more)
          ≡ token_from_path decode (codes "/access/" ++ segment))
token_from_path_segment decode segment more h p q =
    let whole = token_of decode segment segment p (first_segment_whole segment h) in
    (
      whole,
      token_of decode (segment ++ b'/' ∷ more) segment q (first_segment-append segment more h)
          ∙ sym whole,
    )
