-- ===== src/Hooks/Optimistic.antt =====
-- What the optimistic mutations of web/src/queries/hooks.ts leave in the cache.
use mathlib.Core.Option
use vlessvmorectl.Base.{
  ℕ, String, ◌≡◌, refl, ◌∙◌, Option-cases, inl, inr, Option, none, some, List, [], ◌∷◌, find,
  str_eq, eq_iff, arith, ap, ◌≢◌, Bool, true, false, or_default, if◌then◌else◌,
}
use vlessvmorectl.Types.{Server, DisabledReason, VlessUser, Reloaded, Subscriber}
use vlessvmorectl.Patch.{UserPatchFields}
use vlessvmorectl.Keys.{QueryKey, server, users, subscribers}
use vlessvmorectl.ReloadWatch.{ReloadWatch}
use vlessvmorectl.Hooks.Client.{QueryClient}
use vlessvmorectl.Hooks.Users.{
  patched, patch_enabled, patch_user, drop_user, resolved, rejected, SubscriberPatch,
  patch_subscriber, on_mutate, on_settled, use_reload_aware, use_patch_user, use_patch_subscriber,
}

-- `users.find((u) => u.id === j)`
abbrev pub find_user : String → List VlessUser → Option VlessUser
find_user j us = find (λ u. str_eq u.id j) us

patched_id : {Date : Type 0} (f : UserPatchFields Date) (u : VlessUser) → (patched f u).id ≡ u.id
unfolding patched
patched_id f u = ground arith

-- A field of a patch: where it is absent the old value stays.
abbrev pub IsWritten : {A : Type 0} → Option A → (old new : A) → Type 0
IsWritten none old new = new ≡ old
IsWritten (some a) old new = new ≡ a

abbrev pub IsReason : Option Bool → (old new : Option DisabledReason) → Type 0
IsReason (some true) old new = new ≡ none
IsReason _ old new = new ≡ old

-- What a patch makes of a user, field by field
abbrev pub IsPatched : {Date : Type 0} → UserPatchFields Date → (old new : VlessUser) → Type 0
IsPatched f old new =
    IsWritten f.name old.name new.name
    × IsWritten (Option.map some f.note) old.note new.note
    × IsWritten f.quota_bytes old.quota_bytes new.quota_bytes
    × IsWritten f.enabled old.enabled new.enabled
    × IsReason f.enabled old.disabled_reason new.disabled_reason
    × (new ≡ record old {
      name = new.name;
      note = new.note;
      quota_bytes = new.quota_bytes;
      enabled = new.enabled;
      disabled_reason = new.disabled_reason;
    })

IsWritten-or_default : {A : Type 0} (o : Option A) (old : A) → IsWritten o old (or_default o old)
IsWritten-or_default none old = refl
IsWritten-or_default (some a) old = refl

IsWritten-note :
    (o old : Option String)
    → IsWritten (Option.map some o) old (elim o [ none ↦ old | some n ↦ some n ])
IsWritten-note none old = refl
IsWritten-note (some n) old = refl

patch_enabled_lem :
    (o : Option Bool) (u : VlessUser)
    → IsWritten o u.enabled (patch_enabled o u).enabled
      × IsReason o u.disabled_reason (patch_enabled o u).disabled_reason
      × (patch_enabled o u ≡ record u {
        enabled = (patch_enabled o u).enabled;
        disabled_reason = (patch_enabled o u).disabled_reason;
      })
unfolding patch_enabled
patch_enabled_lem none u = (refl, refl, refl)
patch_enabled_lem (some true) u = (refl, refl, refl)
patch_enabled_lem (some false) u = (refl, refl, refl)

patched-IsPatched :
    {Date : Type 0} (f : UserPatchFields Date) (u : VlessUser) → IsPatched f u (patched f u)
unfolding patched
patched-IsPatched f u =
    let (e, r, same) = patch_enabled_lem f.enabled u in
    (
      IsWritten-or_default f.name u.name,
      IsWritten-note f.note u.note,
      IsWritten-or_default f.quota_bytes u.quota_bytes,
      e,
      r,
      ap
          (λ (next : VlessUser). record next {
            name = or_default f.name u.name;
            note = elim f.note [ none ↦ u.note | some n ↦ some n ];
            quota_bytes = or_default f.quota_bytes u.quota_bytes;
          })
          same,
    )

-- An optimistic patch changes the user with the id, and no other.
pub find_user-patch_user :
    {Date : Type 0} (id j : String) (f : UserPatchFields Date) (us : List VlessUser)
    → find_user j (patch_user id f us)
      ≡ (if str_eq id j then Option.map (patched f) (find_user j us) else find_user j us)
unfolding patch_user
find_user-patch_user id j f [] = ground arith
find_user-patch_user id j f (u ∷ us) = ground (
  arith,
  find_user-patch_user id j f us,
  patched_id f u,
  eq_iff u.id id,
  eq_iff u.id j,
  eq_iff id j,
)

-- An optimistic deletion removes the user with the id, and no other.
pub find_user-drop_user :
    (id j : String) (us : List VlessUser)
    → find_user j (drop_user id us) ≡ (if str_eq id j then none else find_user j us)
unfolding drop_user
find_user-drop_user id j [] = ground arith
find_user-drop_user id j (u ∷ us) =
    ground (arith, find_user-drop_user id j us, eq_iff u.id id, eq_iff u.id j, eq_iff id j)

module _ {D : Type 0} (qc : QueryClient D) (key : QueryKey) where
  open qc use {Cache, get_query_data, set_query_data, cancel_queries, invalidate_queries}

  -- While the request is out, the entry is the changed one, where there is one.
  get-on_mutate :
      (change : D → D) (c : Cache)
      → get_query_data key (on_mutate qc key change c).0 ≡ Option.map change (get_query_data key c)
  unfolding on_mutate
  get-on_mutate change c = elim (Option-cases (get_query_data key c)) [
    | inl e ↦ ground (arith, qc.get-cancel key key c)
    | inr (d, e) ↦
        ground (arith, qc.get-cancel key key c, qc.get-set key (change d) (cancel_queries key c))
  ]

  -- After the request fails the entry is what it was.
  get-roll_back :
      (A : Type 0) (root : QueryKey) (change : D → D) (c : Cache)
      → get_query_data key (
          on_settled qc key {A = A} root rejected
            (on_mutate qc key change c).1
            (on_mutate qc key change c).0)
        ≡ get_query_data key c
  unfolding on_mutate on_settled
  get-roll_back A root change c = elim (Option-cases (get_query_data key c)) [
    | inl e ↦
        ground (arith, qc.get-cancel key key c, qc.get-invalidate key root (cancel_queries key c))
    | inr (d, e) ↦ ground (
      arith,
      qc.get-cancel key key c,
      qc.get-set key d (set_query_data key (change d) (cancel_queries key c)),
      qc.get-invalidate key root
          (set_query_data key d (set_query_data key (change d) (cancel_queries key c))),
    )
  ]

  -- After it succeeds the entry is the changed one.
  get-keep :
      {A : Type 0} (root : QueryKey) (change : D → D) (a : A) (c : Cache)
      → get_query_data key (
          on_settled qc key root
            (resolved a)
            (on_mutate qc key change c).1
            (on_mutate qc key change c).0)
        ≡ Option.map change (get_query_data key c)
  unfolding on_settled
  get-keep root change a c =
      qc.get-invalidate key root (on_mutate qc key change c).0 ∙ get-on_mutate change c

module _ (qc : QueryClient (List VlessUser)) (node : Server) (w : ReloadWatch) (c : qc.Cache) where
  -- A failed mutation of a node's users leaves the cached user list and the reload watch as they
  -- were, whatever optimistic change it made, if any.
  pub use_reload_aware_rejected :
      (A : Type 0) (optimistic : Option (List VlessUser → List VlessUser)) (now : ℕ)
      → (qc.get_query_data
            (users node.id)
            (use_reload_aware qc node {A = A} optimistic rejected now (c, w)).0
          ≡ qc.get_query_data (users node.id) c)
        × ((use_reload_aware qc node {A = A} optimistic rejected now (c, w)).1 ≡ w)
  unfolding use_reload_aware
  use_reload_aware_rejected A none now = (
    qc.get-invalidate (users node.id) (server node.id) (qc.cancel_queries (users node.id) c)
        ∙ qc.get-cancel (users node.id) (users node.id) c,
    refl,
  )
  use_reload_aware_rejected A (some change) now =
      (get-roll_back qc (users node.id) A (server node.id) change c, refl)

  after_patch :
      {Date : Type 0} (id j : String) (f : UserPatchFields Date) (env : Reloaded VlessUser)
      (now : ℕ) (us : List VlessUser)
      → qc.get_query_data (users node.id) c ≡ some us
      → Option.bind
          (qc.get_query_data
            (users node.id)
            (use_patch_user qc node id f (resolved env) now (c, w)).0)
          (find_user j)
        ≡ (if str_eq id j then Option.map (patched f) (find_user j us) else find_user j us)
  unfolding use_patch_user Option.bind
  after_patch id j f env now us h =
      rw (get-keep qc (users node.id) (server node.id) (patch_user id f) env c, h)
        (find_user-patch_user id j f us)

  -- After a patch that succeeds the cached user list has, under the id of a user that it had, a user
  -- with the name, the note, the quota and the state that the patch sets, and all else as it
  -- was, but for the reason that it was off, which is gone where the patch switches it on. Under any
  -- other id it has what it had.
  pub use_patch_user-resolved :
      {Date : Type 0} (id j : String) (f : UserPatchFields Date) (env : Reloaded VlessUser)
      (now : ℕ) (us : List VlessUser) (u : VlessUser)
      → qc.get_query_data (users node.id) c ≡ some us
      → find_user id us ≡ some u
      → j ≢ id
      → ((v : VlessUser) × (Option.bind
              (qc.get_query_data
                (users node.id)
                (use_patch_user qc node id f (resolved env) now (c, w)).0)
              (find_user id)
            ≡ some v)
          × IsPatched f u v)
        × (Option.bind
              (qc.get_query_data
                (users node.id)
                (use_patch_user qc node id f (resolved env) now (c, w)).0)
              (find_user j)
            ≡ find_user j us)
  use_patch_user-resolved id j f env now us u h k n =
      let same : str_eq id id ≡ true = (eq_iff id id).1 refl in
      let other : str_eq id j ≡ false = ground (arith, eq_iff id j) in
      (
        (patched f u, after_patch id id f env now us h ∙ rw (same, k) refl, patched-IsPatched f u),
        after_patch id j f env now us h ∙ rw other refl,
      )

-- A patch of a subscriber that fails leaves the cached list of subscribers as it was.
pub use_patch_subscriber_rejected :
    (qc : QueryClient (List Subscriber)) (A : Type 0) (id : String) (patch : SubscriberPatch)
    (c : qc.Cache)
    → qc.get_query_data subscribers (use_patch_subscriber qc {A = A} id patch rejected c)
      ≡ qc.get_query_data subscribers c
unfolding use_patch_subscriber
use_patch_subscriber_rejected qc A id patch c =
    get-roll_back qc subscribers A subscribers (patch_subscriber id patch) c
