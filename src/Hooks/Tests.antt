-- ===== src/Hooks/Tests.antt =====
-- A query client that keeps its entries in a function, and the theorems about the mutations over it.
use mathlib.Core.Option
use vlessvmorectl.Base.{
  ℕ, String, ◌≡◌, ◌≢◌, refl, Bool, true, false, ◌&&◌, Option, none, some, List, [], ◌∷◌, eq_iff,
  arith, if◌then◌else◌,
}
use vlessvmorectl.Types.{Server, VlessUser, Reloaded, Subscriber}
use vlessvmorectl.Patch.{enabled_patch}
use vlessvmorectl.Keys.{QueryKey, Part, word, number, users, parts, is_prefix}
use vlessvmorectl.ReloadWatch.{empty_watch, use_reload_problem}
use vlessvmorectl.ReloadWatch.Store.{ReadLater}
use vlessvmorectl.Hooks.Client.{QueryClient}
use vlessvmorectl.Hooks.Users.{
  resolved, rejected, SubscriberPatch, drop_user, use_reload_aware, use_patch_user,
}
use vlessvmorectl.Hooks.Optimistic.{
  find_user, IsPatched, use_reload_aware_rejected, use_patch_user-resolved,
}
use vlessvmorectl.Hooks.Reloads.{problem_of, failed_reload_shown}

is_prefix_refl : (xs : List Part) → is_prefix xs xs ≡ true
unfolding is_prefix
is_prefix_refl [] = refl
is_prefix_refl (word a ∷ xs) = ground (arith, eq_iff a a, is_prefix_refl xs)
is_prefix_refl (number n ∷ xs) = ground (arith, is_prefix_refl xs)

-- Both keys are prefixes of one another: they are one array.
abbrev same_key : QueryKey → QueryKey → Bool
same_key k j = is_prefix (parts k) (parts j) && is_prefix (parts j) (parts k)

get-set_plain :
    {D : Type 0} (k : QueryKey) (d : D) (c : QueryKey → Option D)
    → (if same_key k k then some d else c k) ≡ some d
get-set_plain k d c = ground (arith, is_prefix_refl (parts k))

abbrev plain_client : (D : Type 0) → QueryClient D
plain_client D = record {
  Cache = QueryKey → Option D;
  get_query_data = λ k c. c k;
  set_query_data = λ k d c j. if same_key k j then some d else c j;
  cancel_queries = λ k c. c;
  invalidate_queries = λ k c. c;
  clear = λ c k. none;
  get-set = get-set_plain;
  get-cancel = λ k j c. refl;
  get-invalidate = λ k j c. refl;
  get-clear = λ k c. refl;
}

abbrev alice : VlessUser
alice = record {
  id = "u1";
  name = "alice";
  uuid = "";
  enabled = false;
  quota_bytes = 0;
  expires_at = none;
  usage_reset_at = "";
  disabled_reason = none;
  sub_token = none;
  note = none;
  created_at = "";
  updated_at = "";
  usage = none;
  subscription_url = none;
  install_url = none;
}

abbrev nl : Server
nl = record { id = "nl"; url = "https://nl" }

abbrev cached : QueryKey → Option (List VlessUser)
cached k = some (alice ∷ [])

abbrev not_reloaded : Reloaded VlessUser
not_reloaded = record { result = alice; reloaded = false; reload_error = some "exit status 1" }

abbrev rename : SubscriberPatch
rename = record { name = some "bob"; note = none; disabled = none }

abbrev no_subscribers : QueryKey → Option (List Subscriber)
no_subscribers k = some []

use_reload_aware_rejected_example :
    ((use_reload_aware
          (plain_client (List VlessUser))
          nl
          {A = VlessUser}
          (some (drop_user "u1"))
          rejected
          5
          (cached, empty_watch)).0
        (users "nl")
      ≡ some (alice ∷ []))
    × ((use_reload_aware
          (plain_client (List VlessUser))
          nl
          {A = VlessUser}
          (some (drop_user "u1"))
          rejected
          5
          (cached, empty_watch)).1
        ≡ empty_watch)
use_reload_aware_rejected_example =
    use_reload_aware_rejected (plain_client (List VlessUser)) nl empty_watch cached VlessUser
      (some (drop_user "u1")) 5

u2-ne-u1 : ◌≢◌ {A = String} "u2" "u1"
u2-ne-u1 h = ground (arith, eq_iff "u2" "u1")

use_patch_user-resolved_example :
    ((v : VlessUser) × (Option.bind
          ((use_patch_user
              (plain_client (List VlessUser))
              nl
              {Date = ℕ}
              "u1"
              (enabled_patch true)
              (resolved not_reloaded)
              5
              (cached, empty_watch)).0
            (users "nl"))
          (find_user "u1")
        ≡ some v)
      × IsPatched {Date = ℕ} (enabled_patch true) alice v)
    × (Option.bind
          ((use_patch_user
              (plain_client (List VlessUser))
              nl
              {Date = ℕ}
              "u1"
              (enabled_patch true)
              (resolved not_reloaded)
              5
              (cached, empty_watch)).0
            (users "nl"))
          (find_user "u2")
        ≡ find_user "u2" (alice ∷ []))
use_patch_user-resolved_example =
    use_patch_user-resolved (plain_client (List VlessUser)) nl empty_watch cached "u1" "u2"
      (enabled_patch true) not_reloaded 5 (alice ∷ []) alice refl refl u2-ne-u1

abbrev parse_none : String → Option ℕ
parse_none s = none

unread : ¬ ReadLater parse_none (some "then") (problem_of not_reloaded 5)
unread (iso, at, p, q, r, s) = cc

failed_reload_shown_example :
    (use_reload_problem parse_none
      (use_reload_aware
        (plain_client (List VlessUser))
        nl
        (some (drop_user "u1"))
        (resolved not_reloaded)
        5
        (cached, empty_watch)).1
      "nl"
      (some "then")).0
    ≡ some (problem_of not_reloaded 5)
failed_reload_shown_example =
    failed_reload_shown (plain_client (List VlessUser)) nl (some (drop_user "u1")) not_reloaded 5
      cached empty_watch parse_none (some "then") refl unread

nl-ne-de : ◌≢◌ {A = String} "nl" "de"
nl-ne-de = ground (arith, eq_iff "nl" "de")
