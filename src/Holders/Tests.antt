-- ===== src/Holders/Tests.antt =====
-- Two subscribers, of whom one holds the account.
use vlessvmorectl.Base.{String, ◌≡◌, refl, true, false, none, List, [], ◌∷◌, eq_iff, arith}
use vlessvmorectl.Types.{SubscriberEntry, Subscriber}
use vlessvmorectl.Holders.{holders, available}
use vlessvmorectl.Holders.Partition.{Parted, available-Parted}

abbrev phone : SubscriberEntry
phone = record {
  id = "e1";
  server_id = "nl";
  vless_user_id = "u1";
  label = none;
  added_at = "";
  server_configured = true;
}

abbrev person : String → List SubscriberEntry → Subscriber
person id entries = record {
  id = id;
  name = id;
  note = none;
  token = "";
  access_path = "";
  disabled = false;
  entries = entries;
  created_at = "";
  updated_at = "";
}

abbrev people : List Subscriber
people = person "ann" (phone ∷ []) ∷ person "bob" [] ∷ []

offered : available "nl" "u1" people ≡ person "bob" [] ∷ []
unfolding available
offered = refl

available-Parted_example :
    Parted "nl" "u1" people (holders "nl" "u1" people) (available "nl" "u1" people)
available-Parted_example =
    available-Parted "nl" "u1" people (((λ h. ground (arith, eq_iff "bob" "ann")), tt), (tt, tt))
