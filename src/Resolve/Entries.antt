-- ===== src/Resolve/Entries.antt =====
-- What `resolveEntries` of web/src/features/subscribers/resolve.ts says of an entry: its user comes
-- from its own node's list, and its state tells the four cases of a node apart.
use vlessvmorectl.Base.{
  String, ◌≡◌, refl, ap₂, subst, ◌≢◌, ◌↔◌, ◌⊎◌, inl, inr, false, none, some, List, [], ◌∷◌, map, In,
  any, lookup, insert, lookup-insert, arith, str_eq, eq_iff, Option-cases, Bool-cases,
}
use vlessvmorectl.Types.{Server, VlessUser, SubscriberEntry}
use vlessvmorectl.Resolve.{
  NodeUsers, unconfigured, index_from, server_index, user_index, node_index, missing_state,
  find_index, resolve_entry, resolve_entries,
}

module _ {A V : Type 0} (key : A → String) (val : A → V) where
  -- What a map built from a list holds under a key comes from an element with that key.
  index_from_sound :
      (xs : List A) (m : List (String × V)) (k : String) (v : V)
      → lookup k (index_from key val xs m) ≡ some v
      → (lookup k m ≡ some v) ⊎ ((x : A) × In x xs × (key x ≡ k) × (val x ≡ v))
  unfolding index_from
  index_from_sound [] m k v h = inl h
  index_from_sound (x ∷ xs) m k v h = elim (index_from_sound xs (insert (key x) (val x) m) k v h) [
    | inl e ↦ elim (Bool-cases (str_eq (key x) k)) [
      | inl same ↦ inr (
        x,
        inl refl,
        (eq_iff (key x) k).0 same,
        ground (arith, lookup-insert (key x) k (val x) m),
      )
      | inr other ↦ inl (ground (arith, lookup-insert (key x) k (val x) m))
    ]
    | inr (y, mem, p, q) ↦ inr (y, inr mem, p, q)
  ]

  -- It holds nothing under a key exactly when no element has that key.
  index_from-none_iff :
      (xs : List A) (m : List (String × V)) (k : String)
      → (lookup k (index_from key val xs m) ≡ none)
        ↔ ((lookup k m ≡ none) × (any (λ x. str_eq (key x) k) xs ≡ false))
  unfolding index_from
  index_from-none_iff [] m k = (λ h. (h, refl), λ h. h.0)
  index_from-none_iff (x ∷ xs) m k =
      let (there, back) = index_from-none_iff xs (insert (key x) (val x) m) k in
      (
        λ h. ground (arith, there h, lookup-insert (key x) k (val x) m),
        λ h. back (ground (arith, lookup-insert (key x) k (val x) m)),
      )

resolve_entry_keeps :
    (servers : List Server) (nodes : List NodeUsers) (e : SubscriberEntry)
    → (resolve_entry servers nodes e).entry ≡ e
unfolding resolve_entry
resolve_entry_keeps servers nodes e = ground arith

-- Resolving keeps every entry, in its order.
pub resolve_entries_keeps :
    (entries : List SubscriberEntry) (servers : List Server) (nodes : List NodeUsers)
    → map (λ r. r.entry) (resolve_entries entries servers nodes) ≡ entries
unfolding resolve_entries
resolve_entries_keeps [] servers nodes = refl
resolve_entries_keeps (e ∷ es) servers nodes =
    ap₂ ◌∷◌ (resolve_entry_keeps servers nodes e) (resolve_entries_keeps es servers nodes)

missing_state-ne-unconfigured :
    (id : String) (nodes : List NodeUsers) → missing_state id nodes ≢ unconfigured
unfolding missing_state
missing_state-ne-unconfigured id nodes h = ground arith

unconfigured-lookup_iff :
    (servers : List Server) (nodes : List NodeUsers) (entry : SubscriberEntry)
    → ((resolve_entry servers nodes entry).node_state ≡ unconfigured)
      ↔ (lookup entry.server_id (server_index servers) ≡ none)
unfolding resolve_entry
unconfigured-lookup_iff servers nodes entry =
    (λ h. ground (arith, missing_state-ne-unconfigured entry.server_id nodes), λ h. ground arith)

pub server_index-none_iff :
    (servers : List Server) (k : String)
    → (lookup k (server_index servers) ≡ none) ↔ (any (λ s. str_eq s.id k) servers ≡ false)
unfolding server_index lookup
server_index-none_iff servers k =
    let (there, back) = index_from-none_iff (λ (s : Server). s.id) (λ s. s) servers [] k in
    (λ h. (there h).1, λ h. back (refl, h))

-- An entry is "unconfigured" exactly when no managed server has its server id.
pub resolve_entry-unconfigured_iff :
    (servers : List Server) (nodes : List NodeUsers) (entry : SubscriberEntry)
    → ((resolve_entry servers nodes entry).node_state ≡ unconfigured)
      ↔ (any (λ s. str_eq s.id entry.server_id) servers ≡ false)
resolve_entry-unconfigured_iff servers nodes entry =
    let (there, back) = server_index-none_iff servers entry.server_id in
    let (out, into) = unconfigured-lookup_iff servers nodes entry in
    (λ h. there (out h), λ h. into (back h))

-- An index of users that is found for a server id is that of a node with the id.
find_index_sound :
    (id : String) (nodes : List NodeUsers) (index : List (String × VlessUser))
    → find_index id nodes ≡ some index
    → (n : NodeUsers) × (users : List VlessUser) × In n nodes
      × (n.server.id ≡ id)
      × (n.users ≡ some users)
      × (user_index users ≡ index)
unfolding find_index lookup node_index
find_index_sound id nodes index h =
    elim (index_from_sound (λ (n : NodeUsers). n.server.id) node_index nodes [] id (some index)
      (ground arith)) [
        | inl e ↦ cc
        | inr (n, mem, p, q) ↦ elim (Option-cases n.users) [
          | inl e ↦ ground arith
          | inr (users, e) ↦ (n, users, mem, p, e, ground arith)
        ]
      ]

resolved_user :
    (servers : List Server) (nodes : List NodeUsers) (entry : SubscriberEntry) (u : VlessUser)
    → (resolve_entry servers nodes entry).user ≡ some u
    → (index : List (String × VlessUser)) × (find_index entry.server_id nodes ≡ some index)
      × (lookup entry.vless_user_id index ≡ some u)
unfolding resolve_entry
resolved_user servers nodes entry u h = elim (Option-cases (find_index entry.server_id nodes)) [
  | inl e ↦ ground arith
  | inr (index, e) ↦ (index, e, ground arith)
]

-- The account shown for an entry comes from the list of a node with the entry's server id, and has
-- the entry's account id: never another node's account, nor another account of the node.
resolve_entry_own_user :
    (servers : List Server) (nodes : List NodeUsers) (entry : SubscriberEntry) (u : VlessUser)
    → (resolve_entry servers nodes entry).user ≡ some u
    → (u.id ≡ entry.vless_user_id)
      × ((n : NodeUsers) × (users : List VlessUser) × In n nodes
          × (n.server.id ≡ entry.server_id)
          × (n.users ≡ some users)
          × In u users)
unfolding user_index lookup
resolve_entry_own_user servers nodes entry u h =
    let (index, found, got) = resolved_user servers nodes entry u h in
    let (n, users, mem, p, e, same) = find_index_sound entry.server_id nodes index found in
    elim (index_from_sound (λ (v : VlessUser). v.id) (λ v. v) users [] entry.vless_user_id u
      (rw same got)) [
        | inl e' ↦ cc
        | inr (v, at, q, r) ↦ (
          subst (λ (w : VlessUser). w.id ≡ entry.vless_user_id) r q,
          (n, users, mem, p, e, subst (λ (w : VlessUser). In w users) r at),
        )
      ]
