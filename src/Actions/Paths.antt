-- ===== src/Actions/Paths.antt =====
-- The paths of web/src/api/actions: no two records share one.
use Prim.Native.Char.{Char, code}
use Prim.Native.String.{◌++◌}
use text.Mathlib.TextLemmas.{
  append_cancel_left, append_assoc, nil-append, cons-append, head-eq_of_cons-eq, tail-eq_of_cons-eq,
}
use vlessvmorectl.Base.{
  String, Bool, ◌≡◌, refl, ap, ap₂, ◌≢◌, false, ◌||◌, arith, ◌==◌, ◌∙◌, sym, Option, none, some,
}
use vlessvmorectl.Actions.{subscriber_by_id, entries_of, entry_by_id, delete_entry}

-- Whether a text has a slash in it.
unfoldable pub has_slash : String → Bool
has_slash String.[] = false
has_slash (String.◌∷◌ c s) = code c == b'/' || has_slash s

-- What may follow a segment of a path: nothing, or a slash and more.
abbrev pub rest_of : Option String → String
rest_of none = ""
rest_of (some r) = "/" ++ r

abbrev slash : Char
slash = "/"

slash_first : (r : String) → ("/" ++ r) ≡ String.◌∷◌ slash r
slash_first r = cons-append slash "" r ∙ ap (λ s. String.◌∷◌ slash s) (nil-append r)

slash_free :
    (o : Option String) (c : Char) (s t : String)
    → has_slash (String.◌∷◌ c s) ≡ false
    → rest_of o ≢ (String.◌∷◌ c s ++ t)
unfolding has_slash
slash_free none c s t f h = cc (cons-append c s t)
slash_free (some r) c s t f h =
    let same : slash ≡ c = head-eq_of_cons-eq (sym (slash_first r) ∙ h ∙ cons-append c s t) in
    ground (arith, ap code same)

-- A slash-free segment and what follows it can be told from their concatenation.
pub segment_inj :
    (a b : String) (o p : Option String)
    → has_slash a ≡ false
    → has_slash b ≡ false
    → (a ++ rest_of o) ≡ (b ++ rest_of p)
    → (a ≡ b) × (rest_of o ≡ rest_of p)
unfolding has_slash
segment_inj String.[] String.[] o p f g h =
    (refl, sym (nil-append (rest_of o)) ∙ h ∙ nil-append (rest_of p))
segment_inj String.[] (String.◌∷◌ d b) o p f g h =
    absurd (slash_free o d b (rest_of p) g (sym (nil-append (rest_of o)) ∙ h))
segment_inj (String.◌∷◌ c a) String.[] o p f g h =
    absurd (slash_free p c a (rest_of o) f (sym (nil-append (rest_of p)) ∙ sym h))
segment_inj (String.◌∷◌ c a) (String.◌∷◌ d b) o p f g h =
    let cons = sym (cons-append c a (rest_of o)) ∙ h ∙ cons-append d b (rest_of p) in
    let (same, rest) =
      segment_inj a b o p (ground arith) (ground arith) (tail-eq_of_cons-eq cons) in
    (ap₂ (λ x y. String.◌∷◌ x y) (head-eq_of_cons-eq cons) same, rest)

entry_tail : String → Option String
entry_tail e = some ("entries/" ++ e)

entry_path :
    (encode : String → String) (id entry_id : String)
    → entry_by_id encode id entry_id
      ≡ ("/api/subscribers/" ++ (encode id ++ rest_of (entry_tail (encode entry_id))))
unfolding entry_by_id entries_of subscriber_by_id entry_tail
entry_path encode id entry_id = simp append_assoc (
    sym
      (append_assoc "/api/subscribers" "/" (encode id ++ ("/entries" ++ ("/" ++ encode entry_id))))
    ∙ ap (λ s. "/api/subscribers/" ++ (encode id ++ s))
        (sym (append_assoc "/entries" "/" (encode entry_id))
          ∙ append_assoc "/" "entries/" (encode entry_id)))

-- Where the encodings of two subscriber ids have no slash, and equal encodings are of equal ids, a
-- deletion of an entry and one that has the same path are of the same entry of the same subscriber.
pub delete_entry-inj :
    (encode : String → String) (a b e f : String)
    → (encode a ≡ encode b → a ≡ b)
    → (encode e ≡ encode f → e ≡ f)
    → has_slash (encode a) ≡ false
    → has_slash (encode b) ≡ false
    → (delete_entry encode a e).path ≡ (delete_entry encode b f).path
    → (a ≡ b) × (e ≡ f)
unfolding delete_entry entry_tail
delete_entry-inj encode a b e f ids entries free_a free_b h =
    let paths = sym (entry_path encode a e) ∙ h ∙ entry_path encode b f in
    let (same, tails) =
      segment_inj (encode a) (encode b) (entry_tail (encode e)) (entry_tail (encode f)) free_a
        free_b (append_cancel_left "/api/subscribers/" _ _ paths) in
    (ids same, entries (append_cancel_left "entries/" _ _ (append_cancel_left "/" _ _ tails)))
