-- ===== src/Resolve/States.antt =====
-- The state of an entry in `resolveEntries` of web/src/features/subscribers/resolve.ts, where the
-- nodes are listed once each, as `useUsersByServer` of web/src/queries/hooks.ts lists them.
use vlessvmorectl.Base.{
  String, ◌≡◌, refl, sym, subst, ◌∙◌, ◌≢◌, inl, inr, true, false, Option, none, some, List, [], ◌∷◌,
  In, any, find, is_some, lookup, insert, lookup-insert, arith, str_eq, eq_iff, if◌then◌else◌,
  Option-cases,
}
use vlessvmorectl.Types.{Server, VlessUser, SubscriberEntry}
use vlessvmorectl.Resolve.{
  NodeUsers, NodeState, ok, loading, failed, index_from, server_index, node_index, users_by_server,
  missing_state, find_index, resolve_entry,
}
use vlessvmorectl.Resolve.Entries.{server_index-none_iff}

-- No two nodes have one server id.
abbrev pub IsDistinct : List NodeUsers → Type 0
IsDistinct [] = Unit
IsDistinct (n ∷ ns) = (any (λ m. str_eq m.server.id n.server.id) ns ≡ false) × IsDistinct ns

module _ {A V : Type 0} (key : A → String) (val : A → V) where
  lookup-index_from_fresh :
      (xs : List A) (m : List (String × V)) (k : String)
      → any (λ x. str_eq (key x) k) xs ≡ false
      → lookup k (index_from key val xs m) ≡ lookup k m
  unfolding index_from
  lookup-index_from_fresh [] m k h = refl
  lookup-index_from_fresh (x ∷ xs) m k h = ground (
    arith,
    lookup-index_from_fresh xs (insert (key x) (val x) m) k,
    lookup-insert (key x) k (val x) m,
  )

not_any :
    (k : String) (n : NodeUsers) (nodes : List NodeUsers)
    → any (λ m. str_eq m.server.id k) nodes ≡ false
    → In n nodes
    → n.server.id ≢ k
not_any k n [] h mem p = elim mem [ ]
not_any k n (m ∷ ns) h (inl e) p = ground (arith, eq_iff m.server.id k)
not_any k n (m ∷ ns) h (inr e) p = not_any k n ns (ground arith) e p

lookup-index_from_self :
    (xs : List NodeUsers) (m : List (String × Option (List (String × VlessUser)))) (x : NodeUsers)
    → any (λ y. str_eq y.server.id x.server.id) xs ≡ false
    → lookup x.server.id
        (index_from (λ n. n.server.id) node_index xs (insert x.server.id (node_index x) m))
      ≡ some (node_index x)
lookup-index_from_self xs m x h =
    lookup-index_from_fresh (λ (n : NodeUsers). n.server.id) node_index xs _ x.server.id h
    ∙ ground (
      arith,
      lookup-insert x.server.id x.server.id (node_index x) m,
      eq_iff x.server.id x.server.id,
    )

pub lookup-users_by_server_from :
    (nodes : List NodeUsers) (m : List (String × Option (List (String × VlessUser))))
    (n : NodeUsers)
    → IsDistinct nodes
    → In n nodes
    → lookup n.server.id (index_from (λ n. n.server.id) node_index nodes m) ≡ some (node_index n)
unfolding index_from
lookup-users_by_server_from [] m n d mem = elim mem [ ]
lookup-users_by_server_from (x ∷ xs) m n d (inl e) =
    subst
      (λ (w : NodeUsers).
        lookup w.server.id (index_from (λ n. n.server.id) node_index (x ∷ xs) m)
        ≡ some (node_index w))
      (sym e) (lookup-index_from_self xs m x d.0)
lookup-users_by_server_from (x ∷ xs) m n d (inr mem) =
    lookup-users_by_server_from xs (insert x.server.id (node_index x) m) n d.1 mem

pub find_of_distinct :
    (nodes : List NodeUsers) (n : NodeUsers)
    → IsDistinct nodes
    → In n nodes
    → find (λ m. str_eq m.server.id n.server.id) nodes ≡ some n
find_of_distinct [] n d mem = elim mem [ ]
find_of_distinct (x ∷ xs) n d (inl e) =
    subst (λ (w : NodeUsers). find (λ m. str_eq m.server.id w.server.id) (x ∷ xs) ≡ some w) (sym e)
      (ground (arith, eq_iff x.server.id x.server.id))
find_of_distinct (x ∷ xs) n d (inr mem) = ground (
  arith,
  find_of_distinct xs n d.1 mem,
  not_any x.server.id n xs d.0 mem,
  eq_iff x.server.id n.server.id,
)

-- What the state of an entry on a configured server should say of the entry's node.
abbrev pub state_of : NodeUsers → NodeState
state_of n = elim n.users [ some users ↦ ok | none ↦ if is_some n.failure then failed else loading ]

-- Where the nodes are listed once each, the state of an entry on a managed server is that of its own
-- node: "ok" when the node's list is there, "failed" when only a failure is, "loading" when neither.
pub resolve_entry_state :
    (servers : List Server) (nodes : List NodeUsers) (entry : SubscriberEntry) (n : NodeUsers)
    → IsDistinct nodes
    → In n nodes
    → n.server.id ≡ entry.server_id
    → any (λ s. str_eq s.id entry.server_id) servers ≡ true
    → (resolve_entry servers nodes entry).node_state ≡ state_of n
unfolding resolve_entry missing_state find_index node_index
resolve_entry_state servers nodes entry n d mem p managed =
    elim (Option-cases (lookup entry.server_id (server_index servers))) [
      | inl e ↦ ground (arith, (server_index-none_iff servers entry.server_id).0 e)
      | inr (s, e) ↦ ground (
        arith,
        subst (λ k. lookup k (users_by_server nodes) ≡ some (node_index n)) p
            (unfold users_by_server in lookup-users_by_server_from nodes [] n d mem),
        subst (λ k. find (λ m. str_eq m.server.id k) nodes ≡ some n) p
            (find_of_distinct nodes n d mem),
      )
    ]
