-- ===== src/Resolve/Tests.antt =====
-- Runs of the join and the summary, and the theorems about them at two nodes and three entries.
use vlessvmorectl.Base.{
  ℕ, String, ◌≡◌, refl, true, Option, none, some, List, [], ◌∷◌, map, inl, inr, lookup, insert,
}
use vlessvmorectl.Errors.{refused, bad_token}
use vlessvmorectl.Types.{Server, VlessUser, SubscriberEntry}
use vlessvmorectl.Format.{Count, TimeUnit}
use vlessvmorectl.Resolve.{
  NodeUsers, ok, failed, unconfigured, ResolvedEntry, find_index, index_from, missing_state,
  server_index, user_index, node_index, resolve_entry, resolve_entries,
}
use vlessvmorectl.Resolve.Entries.{resolve_entries_keeps}
use vlessvmorectl.Resolve.States.{state_of, resolve_entry_state}

abbrev user : String → VlessUser
user i = record {
  id = i;
  name = "alice";
  uuid = "";
  enabled = true;
  quota_bytes = 0;
  expires_at = none;
  usage_reset_at = "";
  disabled_reason = none;
  sub_token = none;
  note = none;
  created_at = "";
  updated_at = "";
  usage = none;
  subscription_url = none;
  install_url = none;
}

abbrev nl : Server
nl = record { id = "nl"; url = "https://nl" }

abbrev de : Server
de = record { id = "de"; url = "https://de" }

abbrev nl_node : NodeUsers
nl_node = record { server = nl; users = some (user "u1" ∷ user "u2" ∷ []); failure = none }

abbrev de_node : NodeUsers
de_node = record { server = de; users = none; failure = some (refused bad_token) }

abbrev servers : List Server
servers = nl ∷ de ∷ []

abbrev nodes : List NodeUsers
nodes = nl_node ∷ de_node ∷ []

abbrev entry : String → String → SubscriberEntry
entry s u = record {
  id = "e";
  server_id = s;
  vless_user_id = u;
  label = none;
  added_at = "";
  server_configured = true;
}

abbrev parse_none : String → Option ℕ
parse_none s = none

abbrev print : Count → TimeUnit → String
print c u = ""

found : (resolve_entry servers nodes (entry "nl" "u2")).user ≡ some (user "u2")
unfolding resolve_entry find_index lookup insert server_index index_from node_index user_index
found = refl

three_entries :
    map
      (λ r. r.node_state)
      (resolve_entries (entry "nl" "u9" ∷ entry "de" "u1" ∷ entry "us" "u1" ∷ []) servers nodes)
    ≡ ok ∷ failed ∷ unconfigured ∷ []
unfolding resolve_entries resolve_entry find_index lookup insert server_index index_from node_index
    missing_state
three_entries = refl

resolve_entries_keeps_example :
    map (λ r. r.entry) (resolve_entries (entry "nl" "u1" ∷ entry "us" "u1" ∷ []) servers nodes)
    ≡ entry "nl" "u1" ∷ entry "us" "u1" ∷ []
resolve_entries_keeps_example =
    resolve_entries_keeps (entry "nl" "u1" ∷ entry "us" "u1" ∷ []) servers nodes

resolve_entry_state_example :
    (resolve_entry servers nodes (entry "de" "u1")).node_state ≡ state_of de_node
resolve_entry_state_example =
    resolve_entry_state servers nodes (entry "de" "u1") de_node (refl, (refl, tt)) (inr (inl refl))
      refl refl

abbrev resolved : List ResolvedEntry
resolved =
    record { entry = entry "nl" "u1"; server = some nl; user = some (user "u1"); node_state = ok }
    ∷ record { entry = entry "de" "u1"; server = some de; user = none; node_state = failed }
    ∷ []
