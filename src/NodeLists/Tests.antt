-- ===== src/NodeLists/Tests.antt =====
-- Two nodes, of which one fails.
use vlessvmorectl.Base.{String, ◌≡◌, refl, true, Option, none, some, List, [], ◌∷◌}
use vlessvmorectl.Types.{Server, VlessUser, SubscriberEntry}
use vlessvmorectl.Errors.{unreachable}
use vlessvmorectl.Client.{vless}
use vlessvmorectl.Resolve.{resolve_entry}
use vlessvmorectl.NodeLists.{QueryResult, use_users_by_server, use_server_names}
use vlessvmorectl.NodeLists.Isolation.{resolve_entry-use_users_by_server}

abbrev servers : List Server
servers = record { id = "nl"; url = "https://nl" } ∷ record { id = "de"; url = "https://de" } ∷ []

abbrev users_of_de : QueryResult (List VlessUser)
users_of_de = record { answer = some []; error = none }

abbrev both_answer : List (QueryResult (List VlessUser))
both_answer = record { answer = some []; error = none } ∷ users_of_de ∷ []

abbrev one_fails : List (QueryResult (List VlessUser))
one_fails =
    record { answer = none; error = some (vless (unreachable "timeout" "")) } ∷ users_of_de ∷ []

abbrev on_de : SubscriberEntry
on_de = record {
  id = "e1";
  server_id = "de";
  vless_user_id = "u1";
  label = none;
  added_at = "";
  server_configured = true;
}

resolve_entry-use_users_by_server_example :
    resolve_entry servers (use_users_by_server servers both_answer) on_de
    ≡ resolve_entry servers (use_users_by_server servers one_fails) on_de
resolve_entry-use_users_by_server_example =
    resolve_entry-use_users_by_server servers both_answer one_fails on_de 1
      (record { id = "de"; url = "https://de" }) (refl, (refl, tt)) refl refl refl

abbrev names : List (QueryResult (Option String))
names =
    record { answer = some (some "Amsterdam"); error = none }
    ∷ record { answer = none; error = none }
    ∷ []

only_amsterdam : use_server_names servers names ≡ ("nl", "Amsterdam") ∷ []
unfolding use_server_names
only_amsterdam = refl
