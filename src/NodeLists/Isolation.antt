-- ===== src/NodeLists/Isolation.antt =====
-- What one node answers, or fails to, shows on its own rows only.
use mathlib.Core.Option.{some-injective}
use vlessvmorectl.Base.{
  ℕ, zero, suc, ◌+◌, String, ◌≡◌, refl, false, Option, none, some, List, [], ◌∷◌, In, inl, inr,
  get_elem?, any, find, str_eq, lookup, is_some, or_default, if◌then◌else◌, arith, subst, sym, ap,
  ap₂, ◌∙◌,
}
use vlessvmorectl.Types.{Server, VlessUser, SubscriberEntry}
use vlessvmorectl.Resolve.{
  NodeUsers, NodeState, ResolvedEntry, ok, unconfigured, failed, loading, node_index,
  users_by_server, find_index, missing_state, resolve_entry, server_index,
}
use vlessvmorectl.Resolve.States
use vlessvmorectl.Resolve.States.{lookup-users_by_server_from, find_of_distinct}
use vlessvmorectl.NodeLists.{QueryResult, node_of, nodes_from, use_users_by_server}

-- No two servers have one id.
abbrev pub IsDistinct : List Server → Type 0
IsDistinct [] = Unit
IsDistinct (s ∷ ss) = (any (λ t. str_eq t.id s.id) ss ≡ false) × IsDistinct ss

node_of_server : (s : Server) (r : Option (QueryResult (List VlessUser))) → (node_of s r).server ≡ s
unfolding node_of
node_of_server s none = refl
node_of_server s (some r) = refl

module _ (results : List (QueryResult (List VlessUser))) where
  any-nodes_from :
      (k : String) (i : ℕ) (ss : List Server)
      → any (λ n. str_eq n.server.id k) (nodes_from i ss results) ≡ any (λ t. str_eq t.id k) ss
  unfolding nodes_from
  any-nodes_from k i [] = refl
  any-nodes_from k i (s ∷ ss) =
      rw (node_of_server s (get_elem? results i), any-nodes_from k (i + 1) ss) refl

  nodes_from-IsDistinct :
      (i : ℕ) (ss : List Server) → IsDistinct ss → States.IsDistinct (nodes_from i ss results)
  unfolding nodes_from
  nodes_from-IsDistinct i [] d = tt
  nodes_from-IsDistinct i (s ∷ ss) (n, d) = (
    rw (node_of_server s (get_elem? results i), any-nodes_from s.id (i + 1) ss) n,
    nodes_from-IsDistinct (i + 1) ss d,
  )

  In-nodes_from :
      (i j : ℕ) (ss : List Server) (s : Server)
      → get_elem? ss j ≡ some s
      → In (node_of s (get_elem? results (i + j))) (nodes_from i ss results)
  unfolding nodes_from
  In-nodes_from i j [] s h = cc
  In-nodes_from i zero (t ∷ ss) s h = inl (
      ap₂ (λ s r. node_of s r) (sym (some-injective _ _ h))
        (ap (λ (m : ℕ). get_elem? results m) {x = i + 0} {y = i} (omega arith)))
  In-nodes_from i (suc j) (t ∷ ss) s h = inr (
      subst (λ (m : ℕ). In (node_of s (get_elem? results m)) (nodes_from (i + 1) ss results))
        {x = i + 1 + j} {y = i + suc j} (omega arith) (In-nodes_from (i + 1) j ss s h))

module _ (nodes : List NodeUsers) (n : NodeUsers) (k : String) (d : States.IsDistinct nodes)
    (m : In n nodes) (p : n.server.id ≡ k) where
  find_index-own : find_index k nodes ≡ node_index n
  unfolding find_index
  find_index-own =
      ap (λ (o : Option (Option (List (String × VlessUser)))). or_default o none)
        (subst (λ k. lookup k (users_by_server nodes) ≡ some (node_index n)) p
          (unfold users_by_server in lookup-users_by_server_from nodes [] n d m))

  missing_state-own : missing_state k nodes ≡ (if is_some n.failure then failed else loading)
  unfolding missing_state
  missing_state-own = ground (
    arith,
    subst (λ k. find (λ x. str_eq x.server.id k) nodes ≡ some n) p (find_of_distinct nodes n d m),
  )

-- An entry of what is known of its server and of that server's node
resolve_with :
    SubscriberEntry → Option Server → Option (List (String × VlessUser)) → NodeState → ResolvedEntry
resolve_with entry none index missing = record {
  entry = entry;
  server = none;
  user = none;
  node_state = unconfigured;
}
resolve_with entry (some server) none missing = record {
  entry = entry;
  server = some server;
  user = none;
  node_state = missing;
}
resolve_with entry (some server) (some index) missing = record {
  entry = entry;
  server = some server;
  user = lookup entry.vless_user_id index;
  node_state = ok;
}

resolve_entry-with :
    (servers : List Server) (nodes : List NodeUsers) (entry : SubscriberEntry)
    → resolve_entry servers nodes entry
      ≡ resolve_with entry
          (lookup entry.server_id (server_index servers))
          (find_index entry.server_id nodes)
          (missing_state entry.server_id nodes)
unfolding resolve_entry resolve_with
resolve_entry-with servers nodes entry = ground arith

-- An entry on the server at a position resolves to what that server's own query says.
resolve_entry-own :
    (servers : List Server) (results : List (QueryResult (List VlessUser)))
    (entry : SubscriberEntry) (i : ℕ) (s : Server)
    → IsDistinct servers
    → get_elem? servers i ≡ some s
    → s.id ≡ entry.server_id
    → resolve_entry servers (use_users_by_server servers results) entry ≡ (
        let n = node_of s (get_elem? results i) in
        resolve_with entry
          (lookup entry.server_id (server_index servers))
          (node_index n)
          (if is_some n.failure then failed else loading))
unfolding use_users_by_server
resolve_entry-own servers results entry i s d at own =
    let nodes = nodes_from 0 servers results in
    let n = node_of s (get_elem? results i) in
    let distinct = nodes_from-IsDistinct results 0 servers d in
    let m : In n nodes =
      subst (λ (j : ℕ). In (node_of s (get_elem? results j)) nodes) {x = 0 + i} {y = i}
        (omega arith) (In-nodes_from results 0 i servers s at) in
    let id : n.server.id ≡ entry.server_id =
      ap (λ (t : Server). t.id) (node_of_server s (get_elem? results i)) ∙ own in
    resolve_entry-with servers nodes entry
    ∙ ap₂ (λ x y. resolve_with entry (lookup entry.server_id (server_index servers)) x y)
        (find_index-own nodes n entry.server_id distinct m id)
        (missing_state-own nodes n entry.server_id distinct m id)

-- Where the ids of the servers are distinct, what an entry resolves to depends on the answer of the
-- server that it is on, and on the answer of no other server.
pub resolve_entry-use_users_by_server :
    (servers : List Server) (results others : List (QueryResult (List VlessUser)))
    (entry : SubscriberEntry) (i : ℕ) (s : Server)
    → IsDistinct servers
    → get_elem? servers i ≡ some s
    → s.id ≡ entry.server_id
    → get_elem? results i ≡ get_elem? others i
    → resolve_entry servers (use_users_by_server servers results) entry
      ≡ resolve_entry servers (use_users_by_server servers others) entry
resolve_entry-use_users_by_server servers results others entry i s d at own same =
    resolve_entry-own servers results entry i s d at own
    ∙ ap
        (λ (r : Option (QueryResult (List VlessUser))).
          let n = node_of s r in
          resolve_with entry (lookup entry.server_id (server_index servers)) (node_index n)
            (if is_some n.failure then failed else loading))
        same
    ∙ sym (resolve_entry-own servers others entry i s d at own)
