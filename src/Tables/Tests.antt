-- ===== src/Tables/Tests.antt =====
-- Two users of a node and two subscribers, by names of one length order.
use Prim.Native.Nat.{Ordering, compare}
use mathlib.Core.List.{Mem, forall_mem-cons, not-mem-nil}
use mathlib.Core.List.Perm
use text.Mathlib.TextEquality.{IsScalar-prop}
use vlessvmorectl.Base.{ℕ, suc, String, ◌≡◌, refl, true, false, Option, none, List, [], ◌∷◌, trim}
use vlessvmorectl.Types.{Subscriber, VlessUser}
use vlessvmorectl.Format.{Count, TimeUnit, user_state}
use vlessvmorectl.Resolve.{is_active}
use vlessvmorectl.Sorting.{sort}
use vlessvmorectl.Sorting.Unique.{Distinguishes}
use vlessvmorectl.Sorting.Chain.{ascending-IsConsistent}
use vlessvmorectl.Tables.{matched, shown, rank, compare_users}
use vlessvmorectl.Tables.Users.{by_name, shown-eq_of_perm}

abbrev text_length : String → ℕ
text_length String.[] = 0
text_length (String.◌∷◌ c s) = suc (text_length s)

abbrev by_length : String → String → Ordering
by_length a b = compare (text_length a) (text_length b)

abbrev parse_date : String → Option ℕ
parse_date s = none

abbrev format_count : Count → TimeUnit → String
format_count n u = ""

abbrev same_case : String → String
same_case s = s

abbrev alice : VlessUser
alice = record {
  id = "u1";
  name = "alice";
  uuid = "";
  enabled = true;
  quota_bytes = 0;
  expires_at = none;
  usage_reset_at = "";
  disabled_reason = none;
  sub_token = none;
  note = none;
  created_at = "";
  updated_at = "";
  usage = none;
  subscription_url = none;
  install_url = none;
}

abbrev bob : VlessUser
bob = record alice { name = "bob"; id = "u2" }

abbrev carol : VlessUser
carol = record alice { name = "carol x"; id = "u3"; enabled = false }

attention_first :
    shown parse_date format_count 0 by_length same_case "" (alice ∷ bob ∷ carol ∷ [])
    ≡ carol ∷ bob ∷ alice ∷ []
unfolding shown sort matched trim compare_users rank is_active user_state
attention_first = refl

abbrev Same : VlessUser → Type 0
Same a =
    (b : VlessUser)
    → Mem b (alice ∷ bob ∷ [])
    → by_name parse_date format_count 0 by_length a b ≡ Ordering.eq
    → a ≡ b

VlessUser-set : IsSet VlessUser
VlessUser-set = hlevel (IsScalar-prop)

Same-prop : (a : VlessUser) → IsProp (Same a)
Same-prop a = hlevel (VlessUser-set)

of_two :
    {P : VlessUser → Type 0}
    → ((x : VlessUser) → IsProp (P x))
    → P alice
    → P bob
    → (x : VlessUser) → Mem x (alice ∷ bob ∷ [])
    → P x
of_two prop a b =
    (forall_mem-cons prop).1 (a, (forall_mem-cons prop).1 (b, λ x k. absurd (not-mem-nil k)))

Alike : VlessUser → VlessUser → Type 0
Alike a b = by_name parse_date format_count 0 by_length a b ≡ Ordering.eq → a ≡ b

Alike-prop : (a b : VlessUser) → IsProp (Alike a b)
unfolding Alike
Alike-prop a b = hlevel (VlessUser-set)

names_apart : Distinguishes (by_name parse_date format_count 0 by_length) (alice ∷ bob ∷ [])
unfolding Alike
names_apart a b m n e =
    of_two (λ x. Same-prop x) (of_two {P = Alike alice} (Alike-prop alice) (λ e. refl) (λ e. cc))
      (of_two {P = Alike bob} (Alike-prop bob) (λ e. cc) (λ e. refl)) a m b n e

shown-eq_of_perm_example :
    shown parse_date format_count 0 by_length same_case "" (alice ∷ bob ∷ [])
    ≡ shown parse_date format_count 0 by_length same_case "" (bob ∷ alice ∷ [])
shown-eq_of_perm_example =
    shown-eq_of_perm parse_date format_count 0 by_length same_case "" (alice ∷ bob ∷ [])
      (bob ∷ alice ∷ []) (ascending-IsConsistent (λ (u : VlessUser). text_length u.name))
      (Perm.swap bob alice []) names_apart

abbrev person : String → Subscriber
person name = record {
  id = name;
  name = name;
  note = none;
  token = "";
  access_path = "";
  disabled = false;
  entries = [];
  created_at = "";
  updated_at = "";
}

abbrev people : List Subscriber
people = person "alice" ∷ person "bob" ∷ []
