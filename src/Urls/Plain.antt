-- ===== src/Urls/Plain.antt =====
-- Addresses as a text with an association list of parameters, and how such an address is printed: an
-- instance of the interface of URL. A printed address begins with a mark; each of its fields has a dot
-- before every character and a semicolon at its end.
use Prim.Native.Char.{Char, code}
use Prim.Native.String.{◌++◌}
use vlessvmorectl.Base.{
  String, ◌≡◌, ◌≢◌, refl, ap, none, some, List, [], ◌∷◌, lookup, insert, remove, lookup-insert,
  lookup-remove, eq_iff, ◌==◌, arith, if◌then◌else◌,
}
use vlessvmorectl.Urls.{UrlApi}

abbrev pub Address : Type 0
Address = String × List (String × String)

unfoldable pub escape : String → String → String
escape String.[] rest = String.◌∷◌ ";" rest
escape (String.◌∷◌ c s) rest = String.◌∷◌ "." (String.◌∷◌ c (escape s rest))

unfoldable pub push : Char → List String → List String
push c [] = String.◌∷◌ c "" ∷ []
push c (t ∷ ts) = String.◌∷◌ c t ∷ ts

unfoldable pub split : String → List String
unfolding push
split String.[] = []
split (String.◌∷◌ d String.[]) = "" ∷ []
split (String.◌∷◌ d (String.◌∷◌ c s)) =
    let ended = "" ∷ split (String.◌∷◌ c s) in
    let longer = push c (split s) in if code d == 59 then ended else longer

unfoldable pub fields : List (String × String) → String
unfolding escape
fields [] = ""
fields ((k, v) ∷ ps) = escape k (escape v (fields ps))

unfoldable pub pairs : List String → List (String × String)
pairs (k ∷ v ∷ rest) = (k, v) ∷ pairs rest
pairs rest = []

unfoldable pub address_of : List String → Address
unfolding pairs
address_of [] = ("", [])
address_of (a ∷ rest) = (a, pairs rest)

unfoldable pub print : Address → String
unfolding escape fields
print (a, ps) = String.◌∷◌ "!" (escape a (fields ps))

unfoldable pub read : (path base : String) → Address
unfolding split address_of
read String.[] base = (base, [])
read (String.◌∷◌ m s) base =
    if code m == 33 then address_of (split s) else (base ++ String.◌∷◌ m s, [])

split_end : (rest : String) → split (String.◌∷◌ ";" rest) ≡ "" ∷ split rest
unfolding split
split_end String.[] = refl
split_end (String.◌∷◌ c s) = refl

split-escape : (s rest : String) → split (escape s rest) ≡ s ∷ split rest
unfolding escape split push
split-escape String.[] rest = split_end rest
split-escape (String.◌∷◌ c s) rest = ap (push c) (split-escape s rest)

pairs-split-fields : (ps : List (String × String)) → pairs (split (fields ps)) ≡ ps
unfolding fields pairs split
pairs-split-fields [] = refl
pairs-split-fields ((k, v) ∷ ps) =
    rw (split-escape k (escape v (fields ps)), split-escape v (fields ps))
      (ap (λ qs. (k, v) ∷ qs) (pairs-split-fields ps))

pub read-print : (u : Address) (base : String) → read (print u) base ≡ u
unfolding read print address_of
read-print (a, ps) base = rw (split-escape a (fields ps), pairs-split-fields ps) refl

pub get-set_plain : (k v : String) (u : Address) → lookup k (insert k v u.1) ≡ some v
get-set_plain k v u = ground (arith, lookup-insert k k v u.1, eq_iff k k)

pub get-set_other_plain :
    (k j v : String) (u : Address) → j ≢ k → lookup j (insert k v u.1) ≡ lookup j u.1
get-set_other_plain k j v u n = ground (arith, lookup-insert k j v u.1, eq_iff k j)

pub get-delete_plain : (k : String) (u : Address) → lookup k (remove k u.1) ≡ none
get-delete_plain k u = ground (arith, lookup-remove k k u.1, eq_iff k k)

pub get-delete_other_plain :
    (k j : String) (u : Address) → j ≢ k → lookup j (remove k u.1) ≡ lookup j u.1
get-delete_other_plain k j u n = ground (arith, lookup-remove k j u.1, eq_iff k j)

abbrev pub plain_urls : UrlApi
plain_urls = record {
  Url = Address;
  parse_url = read;
  to_string = print;
  address = λ u. u.0;
  get_param = λ k u. lookup k u.1;
  set_param = λ k v u. (u.0, insert k v u.1);
  delete_param = λ k u. (u.0, remove k u.1);
  get-set = get-set_plain;
  get-set_other = get-set_other_plain;
  get-delete = get-delete_plain;
  get-delete_other = get-delete_other_plain;
  address-set = λ k v u. refl;
  address-printed = λ u base. ap (λ (w : Address). w.0) (read-print u base);
  get-printed = λ k u base. ap (λ (w : Address). lookup k w.1) (read-print u base);
}
