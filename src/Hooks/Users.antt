-- ===== src/Hooks/Users.antt =====
-- The optimistic changes and the reload-aware mutation of web/src/queries/hooks.ts.
use vlessvmorectl.Base.{
  ℕ, String, Bool, true, false, not, Option, none, some, List, map, keep, str_eq, or_default,
  if◌then◌else◌,
}
use vlessvmorectl.Types.{Server, VlessUser, Reloaded, Subscriber}
use vlessvmorectl.Patch.{UserPatchFields}
use vlessvmorectl.Keys.{QueryKey, server, users, subscribers}
use vlessvmorectl.ReloadWatch
use vlessvmorectl.ReloadWatch.{ReloadWatch}
use vlessvmorectl.Hooks.Client.{QueryClient}

-- The fields that the optimistic change of `usePatchUser` copies, in its order; `next` is the copy.
unfoldable pub patch_enabled : Option Bool → VlessUser → VlessUser
patch_enabled none next = next
patch_enabled (some true) next = record next { enabled = true; disabled_reason = none }
patch_enabled (some false) next = record next { enabled = false }

unfoldable pub patched : {Date : Type 0} → UserPatchFields Date → VlessUser → VlessUser
unfolding patch_enabled
patched f u =
    let next = patch_enabled f.enabled u in
    record next {
      name = or_default f.name u.name;
      note = elim f.note [ none ↦ u.note | some n ↦ some n ];
      quota_bytes = or_default f.quota_bytes u.quota_bytes;
    }

-- `before.map((u) => (u.id !== id ? u : next))`
unfoldable pub patch_user :
    {Date : Type 0} → String → UserPatchFields Date → List VlessUser → List VlessUser
unfolding patched
patch_user id f before = map (λ u. if str_eq u.id id then patched f u else u) before

-- `before.filter((u) => u.id !== id)`
unfoldable pub drop_user : String → List VlessUser → List VlessUser
drop_user id before = keep (λ u. not (str_eq u.id id)) before

-- What the request of a mutation came to.
pub data Settled {ℓ} (A : Type ℓ) : Type ℓ where
  resolved : A → Settled A
  rejected : Settled A

pub record SubscriberPatch : Type 0 where
  pub name : Option String
  pub note : Option String
  pub disabled : Option Bool

-- `{ ...s, ...patch }`
unfoldable pub patched_subscriber : SubscriberPatch → Subscriber → Subscriber
patched_subscriber p s = record s {
  name = or_default p.name s.name;
  note = elim p.note [ none ↦ s.note | some n ↦ some n ];
  disabled = or_default p.disabled s.disabled;
}

unfoldable pub patch_subscriber : String → SubscriberPatch → List Subscriber → List Subscriber
unfolding patched_subscriber
patch_subscriber id p before =
    map (λ s. if str_eq s.id id then patched_subscriber p s else s) before

-- An optimistic change of one entry: cancel, take the data, replace it. The snapshot is what
-- `onMutate` hands to `onError`; with no data there is nothing to change or to roll back.
module _ {D : Type 0} (qc : QueryClient D) (key : QueryKey) where
  open qc use {Cache, get_query_data, set_query_data, cancel_queries, invalidate_queries}

  unfoldable pub on_mutate : (D → D) → Cache → Cache × Option D
  on_mutate change c =
      let c' = cancel_queries key c in
      elim (get_query_data key c') [
        | none ↦ (c', none)
        | some before ↦ (set_query_data key (change before) c', some before)
      ]

  unfoldable pub roll_back : Option D → Cache → Cache
  roll_back none c = c
  roll_back (some before) c = set_query_data key before c

  -- `onError`, then `onSettled`, with the key that is invalidated
  unfoldable pub on_settled : {A : Type 0} → QueryKey → Settled A → Option D → Cache → Cache
  unfolding roll_back
  on_settled root (resolved a) snapshot c = invalidate_queries root c
  on_settled root rejected snapshot c = invalidate_queries root (roll_back snapshot c)

-- `onSuccess` of `useReloadAware`: the watch after the node has answered at an instant.
unfoldable pub on_reloaded :
    {A : Type 0} → String → Settled (Reloaded A) → ℕ → ReloadWatch → ReloadWatch
on_reloaded id rejected now w = w
on_reloaded id (resolved env) now w =
    if env.reloaded
    then (ReloadWatch.clear id w).0
    else (ReloadWatch.mark id (or_default env.reload_error "the node did not say why") now w).0

-- One run of a mutation of `useReloadAware`, from `onMutate` to `onSettled`, on the cache of user
-- lists and the reload watch; `none` is a mutation with no optimistic change.
module _ (qc : QueryClient (List VlessUser)) (node : Server) where
  open qc use {Cache, cancel_queries}

  unfoldable pub start :
      Option (List VlessUser → List VlessUser) → Cache → Cache × Option (List VlessUser)
  unfolding on_mutate
  start none c = (cancel_queries (users node.id) c, none)
  start (some change) c = on_mutate qc (users node.id) change c

  unfoldable pub use_reload_aware :
      {A : Type 0}
      → Option (List VlessUser → List VlessUser)
      → Settled (Reloaded A)
      → ℕ
      → Cache × ReloadWatch
      → Cache × ReloadWatch
  unfolding start on_settled on_reloaded
  use_reload_aware optimistic settled now (c, w) =
      let (c', snapshot) = start optimistic c in
      (
        on_settled qc (users node.id) (server node.id) settled snapshot c',
        on_reloaded node.id settled now w,
      )

  unfoldable pub use_patch_user :
      {Date : Type 0}
      → String
      → UserPatchFields Date
      → Settled (Reloaded VlessUser)
      → ℕ
      → Cache × ReloadWatch
      → Cache × ReloadWatch
  unfolding use_reload_aware patch_user
  use_patch_user id patch settled now s =
      use_reload_aware (some (patch_user id patch)) settled now s

  unfoldable pub use_delete_user :
      {A : Type 0} → String → Settled (Reloaded A) → ℕ → Cache × ReloadWatch → Cache × ReloadWatch
  unfolding use_reload_aware drop_user
  use_delete_user id settled now s = use_reload_aware (some (drop_user id)) settled now s

  -- `useCreateUser` and `useResetUsage`: no optimistic change
  unfoldable pub use_plain_mutation :
      {A : Type 0} → Settled (Reloaded A) → ℕ → Cache × ReloadWatch → Cache × ReloadWatch
  unfolding use_reload_aware
  use_plain_mutation settled now s = use_reload_aware none settled now s

-- `usePatchSubscriber`
module _ (qc : QueryClient (List Subscriber)) where
  open qc use {Cache}

  unfoldable pub use_patch_subscriber :
      {A : Type 0} → String → SubscriberPatch → Settled A → Cache → Cache
  unfolding on_mutate on_settled patch_subscriber
  use_patch_subscriber id patch settled c =
      let (c', snapshot) = on_mutate qc subscribers (patch_subscriber id patch) c in
      on_settled qc subscribers subscribers settled snapshot c'
