-- ===== src/CreateUser/Retry.antt =====
-- Whom the second attempt of web/src/features/users/CreateUserDialog.tsx reaches: only nodes that
-- refused the first one.
use vlessvmorectl.Base.{
  ℕ, String, Bool, ◌≡◌, refl, true, false, some, List, [], ◌∷◌, map, keep, In, inl, inr, arith,
  str_eq, eq_iff, is_some, Bool-cases, subst, sym, ◌∙◌, ap, not, ◌&&◌, ◌≢◌,
}
use vlessvmorectl.Types.{Server}
use vlessvmorectl.Resolve.{NodeUsers}
use vlessvmorectl.ReloadWatch.{ReloadWatch}
use vlessvmorectl.CreateUser.{
  listed, Attempt, created, refused, CreatedOnNode, Dialog, targets, create_on_node, create_all,
  create_on_servers, on_success, submit, note_failed, send_create, taken,
}

In-keep :
    {A : Type 0} (p : A → Bool) (a : A) (xs : List A) → In a (keep p xs) → In a xs × (p a ≡ true)
In-keep p a [] h = absurd h
In-keep p a (x ∷ xs) h = elim (Bool-cases (p x)) [
  | inl e ↦ elim (rw e at h) [
    | inl same ↦ (inl same, rw same e)
    | inr later ↦ let (m, q) = In-keep p a xs later in (inr m, q)
  ]
  | inr e ↦ let (m, q) = In-keep p a xs (rw e at h) in (inr m, q)
]

listed-targets :
    (nodes : List NodeUsers) (picked : List String) (name : String) (n : NodeUsers)
    → In n (targets nodes picked name)
    → listed n.server.id picked ≡ true
unfolding targets
listed-targets nodes picked name n h =
    let (m, e) =
      In-keep (λ (n : NodeUsers). listed n.server.id picked && not (taken name n)) n nodes h in
    ground arith

map-nil : (ns : List NodeUsers) → ns ≢ [] → map (λ n. n.server.id) ns ≢ []
map-nil [] h = absurd (h refl)
map-nil (n ∷ ns) h = λ e. cc

module _ {E : Type 0} where
  -- A node that refused, among the servers.
  abbrev pub IsRefused : (Server → Attempt E) → List Server → String → Type 0
  IsRefused answer servers id =
      (s : Server) × (e : E) × In s servers × (s.id ≡ id) × (answer s ≡ refused e)

  refused_on_node :
      (s : Server) (a : Attempt E) (now : ℕ) (w : ReloadWatch)
      → is_some (create_on_node s a now w).0.error ≡ true
      → (e : E) × (a ≡ refused e)
  unfolding create_on_node
  refused_on_node s (created env) now w h = cc
  refused_on_node s (refused e) now w h = (e, refl)

  server_on_node :
      (s : Server) (a : Attempt E) (now : ℕ) (w : ReloadWatch)
      → (create_on_node s a now w).0.server ≡ s
  unfolding create_on_node
  server_on_node s (created env) now w = refl
  server_on_node s (refused e) now w = refl

  In-create_all :
      (ss : List Server) (answer : Server → Attempt E) (now : ℕ) (w : ReloadWatch)
      (r : CreatedOnNode E)
      → In r (create_all ss answer now w).0
      → is_some r.error ≡ true
      → (s : Server) × (e : E) × In s ss × (s.id ≡ r.server.id) × (answer s ≡ refused e)
  unfolding create_all
  In-create_all [] answer now w r h f = absurd h
  In-create_all (s ∷ ss) answer now w r (inl same) f =
      let (e, p) =
        refused_on_node s (answer s) now w (subst (λ x. is_some x.error ≡ true) same f) in
      (
        s,
        e,
        inl refl,
        sym (ap (λ x. x.server.id) same ∙ ap (λ x. x.id) (server_on_node s (answer s) now w)),
        p,
      )
  In-create_all (s ∷ ss) answer now w r (inr later) f =
      let (x, e, m, p, q) =
        In-create_all ss answer now (create_on_node s (answer s) now w).1 r later f in
      (x, e, inr m, p, q)

  listed-map :
      (id : String) (rs : List (CreatedOnNode E))
      → listed id (map (λ r. r.server.id) rs) ≡ true
      → (r : CreatedOnNode E) × In r rs × (r.server.id ≡ id)
  unfolding listed
  listed-map id [] h = cc
  listed-map id (r ∷ rs) h = elim (Bool-cases (str_eq r.server.id id)) [
    | inl e ↦ (r, inl refl, (eq_iff r.server.id id).0 e)
    | inr e ↦ let (x, m, p) = listed-map id rs (ground arith) in (x, inr m, p)
  ]

  picked-note_failed :
      (failed : List (CreatedOnNode E)) (d : Dialog E) (id : String)
      → (note_failed failed d).closed ≡ false
      → listed id (note_failed failed d).picked ≡ true
      → (r : CreatedOnNode E) × In r failed × (r.server.id ≡ id)
  unfolding note_failed
  picked-note_failed [] d id c h = cc
  picked-note_failed (r ∷ rs) d id c h = listed-map id (r ∷ rs) h

  picked-send_create :
      (ids : List String) (servers : List Server) (answer : Server → Attempt E) (now : ℕ)
      (d : Dialog E) (w : ReloadWatch) (id : String)
      → ids ≢ []
      → (send_create ids servers answer now (d, w)).0.closed ≡ false
      → listed id (send_create ids servers answer now (d, w)).0.picked ≡ true
      → IsRefused answer servers id
  unfolding send_create on_success create_on_servers
  picked-send_create [] servers answer now d w id some_target c h = absurd (some_target refl)
  picked-send_create (i ∷ ids) servers answer now d w id some_target c h =
      let chosen = keep (λ s. listed s.id (i ∷ ids)) servers in
      let results = (create_all chosen answer now w).0 in
      let (r, m, p) = picked-note_failed (keep (λ r. is_some r.error) results) d id c h in
      let (member, failed) = In-keep (λ (r : CreatedOnNode E). is_some r.error) r results m in
      let (s, e, among, q, a) = In-create_all chosen answer now w r member failed in
      (s, e, (In-keep (λ s. listed s.id (i ∷ ids)) s servers among).0, q ∙ p, a)

  -- After an attempt that reached some node and left the dialog open, every node that the next one
  -- would be sent to, under any name and whatever the lists of the nodes are by then, is a server
  -- that refused the first: no node is asked again that has created the user.
  pub targets-submit :
      (servers : List Server) (nodes later : List NodeUsers) (name next : String) (quota : ℕ)
      (answer : Server → Attempt E) (now : ℕ) (d : Dialog E) (w : ReloadWatch) (n : NodeUsers)
      → targets nodes d.picked name ≢ []
      → (submit servers nodes name (some quota) answer now (d, w)).0.closed ≡ false
      → In n
          (targets later (submit servers nodes name (some quota) answer now (d, w)).0.picked next)
      → IsRefused answer servers n.server.id
  unfolding submit
  targets-submit servers nodes later name next quota answer now d w n reached open' m =
      let ids = map (λ (x : NodeUsers). x.server.id) (targets nodes d.picked name) in
      let picked = (send_create ids servers answer now (d, w)).0.picked in
      picked-send_create ids servers answer now d w n.server.id
        (map-nil (targets nodes d.picked name) reached) open' (listed-targets later picked next n m)
