-- ===== src/CreateUser.antt =====
-- web/src/features/users/CreateUserDialog.tsx with useCreateUserOnServers of web/src/queries/hooks.ts:
-- one user created on several nodes, and what a second attempt is sent to. `E` is the type of what a
-- request throws. The nodes answer in some order; each touches its own entry of the reload watch
-- only, so the answers are taken in the order of the servers.
pub mod Retry
mod Tests
use vlessvmorectl.Base.{
  ℕ, String, Bool, true, false, not, ◌&&◌, Option, none, some, List, [], ◌∷◌, map, keep, any,
  str_eq, trim, ◌++◌, truthy, is_some, if◌then◌else◌,
}
use vlessvmorectl.Types.{Server, VlessUser, Reloaded}
use vlessvmorectl.Patch.{UserCreateFields}
use vlessvmorectl.Resolve.{NodeUsers}
use vlessvmorectl.ReloadWatch.{ReloadWatch}
use vlessvmorectl.Hooks.Users.{resolved, on_reloaded}

-- `ids.includes(id)`
unfoldable pub listed : String → List String → Bool
listed id ids = any (λ i. str_eq i id) ids

-- What one node answers to the request to create the user.
pub data Attempt (E : Type 0) : Type 0 where
  created : Reloaded VlessUser → Attempt E
  refused : E → Attempt E

pub record CreatedOnNode (E : Type 0) : Type 0 where
  pub server : Server
  pub error : Option E

-- The part of the dialog's state that an attempt changes; `closed` is that `onClose` was called.
pub record Dialog (E : Type 0) : Type 0 where
  pub picked : List String
  pub failures : List (CreatedOnNode E)
  pub closed : Bool

-- a name that the node's list, where it is there, already has
unfoldable pub taken : String → NodeUsers → Bool
taken name node = elim node.users [
  | none ↦ false
  | some users ↦ any (λ u. str_eq u.name (trim name)) users && truthy (trim name)
]

unfoldable pub targets : List NodeUsers → List String → String → List NodeUsers
unfolding listed taken
targets nodes picked name =
    keep (λ (n : NodeUsers). listed n.server.id picked && not (taken name n)) nodes

-- `onToggle` of a node
unfoldable pub toggle : String → List String → List String
unfolding listed
toggle id ids = if listed id ids then keep (λ i. not (str_eq i id)) ids else ids ++ id ∷ []

-- The input of the request, with the date that the chosen day is.
unfoldable pub create_input :
    {Date : Type 0} → String → ℕ → Option Date → String → UserCreateFields Date
create_input name quota_bytes expires note = record {
  name = trim name;
  uuid = none;
  quota_bytes = some quota_bytes;
  note = if truthy (trim note) then some (trim note) else none;
  enabled = none;
  expires_at = expires;
}

module _ {E : Type 0} where
  -- one round of the fan-out of `useCreateUserOnServers`
  unfoldable pub create_on_node :
      Server → Attempt E → ℕ → ReloadWatch → CreatedOnNode E × ReloadWatch
  unfolding on_reloaded
  create_on_node server (created env) now w =
      (record { server = server; error = none }, on_reloaded server.id (resolved env) now w)
  create_on_node server (refused e) now w = (record { server = server; error = some e }, w)

  unfoldable pub create_all :
      List Server → (Server → Attempt E) → ℕ → ReloadWatch → List (CreatedOnNode E) × ReloadWatch
  unfolding create_on_node
  create_all [] answer now w = ([], w)
  create_all (s ∷ ss) answer now w =
      let (r, w') = create_on_node s (answer s) now w in
      let (rs, w'') = create_all ss answer now w' in (r ∷ rs, w'')

  -- `useCreateUserOnServers`
  unfoldable pub create_on_servers :
      List Server
      → List String
      → (Server → Attempt E)
      → ℕ
      → ReloadWatch
      → List (CreatedOnNode E) × ReloadWatch
  unfolding listed create_all
  create_on_servers servers ids answer now w =
      create_all (keep (λ s. listed s.id ids) servers) answer now w

  -- `onSuccess` of `submit`, given the results with an error
  unfoldable pub note_failed : List (CreatedOnNode E) → Dialog E → Dialog E
  note_failed [] d = record d { failures = []; closed = true }
  note_failed (r ∷ rs) d = record d { failures = r ∷ rs; picked = map (λ r. r.server.id) (r ∷ rs) }

  unfoldable pub on_success : List (CreatedOnNode E) → Dialog E → Dialog E
  unfolding note_failed
  on_success results d = note_failed (keep (λ r. is_some r.error) results) d

  -- `create.mutate` with its `onSuccess`, unless there is no target
  unfoldable pub send_create :
      List String
      → List Server
      → (Server → Attempt E)
      → ℕ
      → Dialog E × ReloadWatch
      → Dialog E × ReloadWatch
  unfolding create_on_servers on_success
  send_create [] servers answer now s = s
  send_create (id ∷ ids) servers answer now (d, w) =
      let (results, w') = create_on_servers servers (id ∷ ids) answer now w in
      (on_success results d, w')

  -- `submit` up to its result, with the nodes' answers
  unfoldable pub submit :
      List Server
      → List NodeUsers
      → String
      → Option ℕ
      → (Server → Attempt E)
      → ℕ
      → Dialog E × ReloadWatch
      → Dialog E × ReloadWatch
  unfolding targets send_create
  submit servers nodes name none answer now (d, w) = (d, w)
  submit servers nodes name (some quota_bytes) answer now (d, w) =
      send_create (map (λ n. n.server.id) (targets nodes d.picked name)) servers answer now (d, w)
