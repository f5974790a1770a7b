-- ===== src/Hooks/Identity.antt =====
-- The other mutations of web/src/queries/hooks.ts: those of the session, of the passkeys and of the
-- subscribers, and the two of a node that are not reload-aware. `settled` is what the request of the
-- mutation came to; the ceremony of a passkey is a part of that request.
use vlessvmorectl.Base.{◌≡◌, refl, Bool, true, false, ◌&&◌, none, if◌then◌else◌, arith}
use vlessvmorectl.Types.{Server}
use vlessvmorectl.Keys.{QueryKey, session, passkeys, subscribers, server, users}
use vlessvmorectl.ReloadWatch
use vlessvmorectl.ReloadWatch.{ReloadWatch}
use vlessvmorectl.Hooks.Client.{QueryClient}
use vlessvmorectl.Hooks.Users.{Settled, resolved, rejected}

-- The mutations without an optimistic change; those of subscribers share `useSubscriberMutation`.
pub data Mutation : Type 0 where
  login logout passkey_login : Mutation
  change_password change_username : Mutation
  register_passkey rename_passkey delete_passkey : Mutation
  subscriber_mutation : Mutation
  rotate_sub_token reload_node : Server → Mutation

-- `useReloadNode`: the watch of a node that has reloaded
unfoldable pub use_reload_node : {A : Type 0} → Server → Settled A → ReloadWatch → ReloadWatch
use_reload_node node (resolved a) w = (ReloadWatch.clear node.id w).0
use_reload_node node rejected w = w

module _ {D : Type 0} (qc : QueryClient D) where
  open qc use {Cache, get_query_data, invalidate_queries}

  -- `onSuccess` of a mutation, on the cache
  unfoldable pub on_resolved : Mutation → Cache → Cache
  on_resolved login c = qc.clear c
  on_resolved logout c = qc.clear c
  on_resolved passkey_login c = qc.clear c
  on_resolved change_password c = c
  on_resolved change_username c = invalidate_queries session c
  on_resolved register_passkey c = invalidate_queries passkeys c
  on_resolved rename_passkey c = invalidate_queries passkeys c
  on_resolved delete_passkey c = invalidate_queries passkeys c
  on_resolved subscriber_mutation c = c
  on_resolved (rotate_sub_token node) c = c
  on_resolved (reload_node node) c = c

  -- `onSettled` of a mutation, on the cache
  unfoldable pub after_settled : Mutation → Cache → Cache
  after_settled subscriber_mutation c = invalidate_queries subscribers c
  after_settled (rotate_sub_token node) c = invalidate_queries (users node.id) c
  after_settled (reload_node node) c = invalidate_queries (server node.id) c
  after_settled _ c = c

  unfoldable pub use_mutation : {A : Type 0} → Mutation → Settled A → Cache → Cache
  unfolding on_resolved after_settled
  use_mutation m (resolved a) c = after_settled m (on_resolved m c)
  use_mutation m rejected c = after_settled m c

  abbrev pub changes_identity : Mutation → Bool
  changes_identity login = true
  changes_identity logout = true
  changes_identity passkey_login = true
  changes_identity _ = false

  abbrev pub is_resolved : {A : Type 0} → Settled A → Bool
  is_resolved (resolved a) = true
  is_resolved rejected = false

  get-after_settled :
      (m : Mutation) (k : QueryKey) (c : Cache)
      → get_query_data k (after_settled m c) ≡ get_query_data k c
  unfolding after_settled
  get-after_settled login k c = refl
  get-after_settled logout k c = refl
  get-after_settled passkey_login k c = refl
  get-after_settled change_password k c = refl
  get-after_settled change_username k c = refl
  get-after_settled register_passkey k c = refl
  get-after_settled rename_passkey k c = refl
  get-after_settled delete_passkey k c = refl
  get-after_settled subscriber_mutation k c = qc.get-invalidate k subscribers c
  get-after_settled (rotate_sub_token node) k c = qc.get-invalidate k (users node.id) c
  get-after_settled (reload_node node) k c = qc.get-invalidate k (server node.id) c

  get-on_resolved :
      (m : Mutation) (k : QueryKey) (c : Cache)
      → get_query_data k (on_resolved m c)
        ≡ (if changes_identity m then none else get_query_data k c)
  unfolding on_resolved
  get-on_resolved login k c = qc.get-clear k c
  get-on_resolved logout k c = qc.get-clear k c
  get-on_resolved passkey_login k c = qc.get-clear k c
  get-on_resolved change_password k c = refl
  get-on_resolved change_username k c = qc.get-invalidate k session c
  get-on_resolved register_passkey k c = qc.get-invalidate k passkeys c
  get-on_resolved rename_passkey k c = qc.get-invalidate k passkeys c
  get-on_resolved delete_passkey k c = qc.get-invalidate k passkeys c
  get-on_resolved subscriber_mutation k c = refl
  get-on_resolved (rotate_sub_token node) k c = refl
  get-on_resolved (reload_node node) k c = refl

  -- A sign-in or a sign-out that succeeds leaves no data in the cache under any key; one that fails, and
  -- every other mutation, leaves the data of every key as it is.
  get-use_mutation :
      {A : Type 0} (m : Mutation) (settled : Settled A) (k : QueryKey) (c : Cache)
      → get_query_data k (use_mutation m settled c)
        ≡ (if changes_identity m && is_resolved settled then none else get_query_data k c)
  unfolding use_mutation
  get-use_mutation m (resolved a) k c =
      ground (arith, get-after_settled m k (on_resolved m c), get-on_resolved m k c)
  get-use_mutation m rejected k c = ground (arith, get-after_settled m k c)
