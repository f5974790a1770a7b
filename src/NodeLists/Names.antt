-- ===== src/NodeLists/Names.antt =====
-- The captions of the servers.
use mathlib.Core.Option.{some-injective}
use vlessvmorectl.Base.{
  ℕ, zero, suc, ◌+◌, String, ◌≡◌, ◌∙◌, refl, false, Option, none, some, List, [], ◌∷◌, get_elem?,
  any, str_eq, eq_iff, lookup, truthy, lookup-insert, if◌then◌else◌, arith, subst, ap,
}
use vlessvmorectl.Types.{Server}
use vlessvmorectl.NodeLists.{QueryResult, name_of, put_name, names_from, use_server_names}
use vlessvmorectl.NodeLists.Isolation.{IsDistinct}

-- A blank name is no caption.
abbrev pub non_blank : Option String → Option String
non_blank none = none
non_blank (some name) = if truthy name then some name else none

first_name : Option String → Option String → Option String
first_name none old = old
first_name (some name) old = some name

first_name-none : (o : Option String) → first_name o none ≡ o
unfolding first_name
first_name-none none = refl
first_name-none (some name) = refl

not_at :
    (j : ℕ) (ss : List Server) (s : Server) (k : String)
    → any (λ x. str_eq x.id k) ss ≡ false
    → get_elem? ss j ≡ some s
    → str_eq s.id k ≡ false
not_at j [] s k h at = cc
not_at zero (x ∷ ss) s k h at = ground (arith, ap (λ (y : Server). y.id) (some-injective x s at))
not_at (suc j) (x ∷ ss) s k h at = not_at j ss s k (ground arith) at

lookup-put_name :
    (id k : String) (name : Option String) (names : List (String × String))
    → lookup k (put_name id name names)
      ≡ (if str_eq id k then first_name (non_blank name) (lookup k names) else lookup k names)
unfolding put_name first_name
lookup-put_name id k none names = ground arith
lookup-put_name id k (some name) names = ground (arith, lookup-insert id k name names)

module _ (results : List (QueryResult (Option String))) where
  lookup-names_from_fresh :
      (k : String) (i : ℕ) (ss : List Server) (names : List (String × String))
      → any (λ t. str_eq t.id k) ss ≡ false
      → lookup k (names_from i ss results names) ≡ lookup k names
  unfolding names_from
  lookup-names_from_fresh k i [] names h = refl
  lookup-names_from_fresh k i (s ∷ ss) names h = ground (
    arith,
    lookup-names_from_fresh k (i + 1) ss (put_name s.id (name_of (get_elem? results i)) names),
    lookup-put_name s.id k (name_of (get_elem? results i)) names,
  )

  own_name :
      (i : ℕ) (ss : List Server) (t : Server) (names : List (String × String))
      → any (λ x. str_eq x.id t.id) ss ≡ false
      → lookup t.id names ≡ none
      → lookup t.id
          (names_from (i + 1) ss results (put_name t.id (name_of (get_elem? results i)) names))
        ≡ non_blank (name_of (get_elem? results i))
  own_name i ss t names n e =
      let name = name_of (get_elem? results i) in
      lookup-names_from_fresh t.id (i + 1) ss (put_name t.id name names) n
      ∙ lookup-put_name t.id t.id name names
      ∙ rw ((eq_iff t.id t.id).1 refl, e) (first_name-none (non_blank name))

  lookup-names_from :
      (i j : ℕ) (ss : List Server) (s : Server) (names : List (String × String))
      → IsDistinct ss
      → get_elem? ss j ≡ some s
      → lookup s.id names ≡ none
      → lookup s.id (names_from i ss results names)
        ≡ non_blank (name_of (get_elem? results (i + j)))
  unfolding names_from
  lookup-names_from i j [] s names d at none_yet = cc
  lookup-names_from i zero (t ∷ ss) s names (n, d) at none_yet =
      subst
        (λ (x : Server).
          lookup x.id names ≡ none
          → lookup x.id
              (names_from (i + 1) ss results (put_name t.id (name_of (get_elem? results i)) names))
            ≡ non_blank (name_of (get_elem? results (i + 0))))
        (some-injective t s at)
        (λ e.
          own_name i ss t names n e
          ∙ ap (λ (m : ℕ). non_blank (name_of (get_elem? results m))) {x = i} {y = i + 0}
              (omega arith))
        none_yet
  lookup-names_from i (suc j) (t ∷ ss) s names (n, d) at none_yet =
      lookup-names_from (i + 1) j ss s (put_name t.id (name_of (get_elem? results i)) names) d at (
        lookup-put_name t.id s.id (name_of (get_elem? results i)) names
        ∙ ground (arith, not_at j ss s t.id n at, eq_iff s.id t.id, eq_iff t.id s.id, none_yet))
      ∙ ap (λ (m : ℕ). non_blank (name_of (get_elem? results m))) {x = i + 1 + j} {y = i + suc j}
          (omega arith)

-- Where the ids of the servers are distinct, the caption of a server is the name in the answer of its own
-- query, and there is none where that is missing or blank.
pub lookup-use_server_names :
    (servers : List Server) (results : List (QueryResult (Option String))) (i : ℕ) (s : Server)
    → IsDistinct servers
    → get_elem? servers i ≡ some s
    → lookup s.id (use_server_names servers results) ≡ non_blank (name_of (get_elem? results i))
unfolding use_server_names lookup
lookup-use_server_names servers results i s d at =
    lookup-names_from results 0 i servers s [] d at refl
    ∙ ap (λ (m : ℕ). non_blank (name_of (get_elem? results m))) {x = 0 + i} {y = i} (omega arith)
