-- ===== src/NodeLists.antt =====
-- useUsersByServer and useServerNames of web/src/queries/hooks.ts: what the panel makes of one query
-- for each node. `useQueries` answers with a result for each query, in the order of the queries.
pub mod Isolation
pub mod Names
mod Tests
use vlessvmorectl.Base.{
  ℕ, ◌+◌, String, Option, none, some, List, [], ◌∷◌, get_elem?, truthy, insert, if◌then◌else◌,
}
use vlessvmorectl.Errors.{VlessFailure}
use vlessvmorectl.Types.{Server, VlessUser}
use vlessvmorectl.Client.{QueryError, vless, other}
use vlessvmorectl.Resolve.{NodeUsers}

-- The `data` and the `error` of the result of a query
pub record QueryResult (D : Type 0) : Type 0 where
  pub answer : Option D
  pub error : Option QueryError

-- `isVlessError(error) ? error.failure : null`
unfoldable pub failure_of : Option QueryError → Option VlessFailure
failure_of none = none
failure_of (some (vless f)) = some f
failure_of (some other) = none

unfoldable pub node_of : Server → Option (QueryResult (List VlessUser)) → NodeUsers
unfolding failure_of
node_of server none = record { server = server; users = none; failure = none }
node_of server (some r) = record { server = server; users = r.answer; failure = failure_of r.error }

-- `servers.map((server, i) => …)` from the server at `i` on
unfoldable pub nodes_from : ℕ → List Server → List (QueryResult (List VlessUser)) → List NodeUsers
unfolding node_of
nodes_from i [] results = []
nodes_from i (server ∷ servers) results =
    node_of server (get_elem? results i) ∷ nodes_from (i + 1) servers results

unfoldable pub use_users_by_server :
    List Server → List (QueryResult (List VlessUser)) → List NodeUsers
unfolding nodes_from
use_users_by_server servers results = nodes_from 0 servers results

-- The part of `ServerInfo` that a caption reads
unfoldable pub name_of : Option (QueryResult (Option String)) → Option String
name_of none = none
name_of (some r) = elim r.answer [ none ↦ none | some name ↦ name ]

-- `if (name) names[server.id] = name`
unfoldable pub put_name : String → Option String → List (String × String) → List (String × String)
unfolding insert
put_name id none names = names
put_name id (some name) names = if truthy name then insert id name names else names

unfoldable pub names_from :
    ℕ
    → List Server
    → List (QueryResult (Option String))
    → List (String × String)
    → List (String × String)
unfolding put_name name_of
names_from i [] results names = names
names_from i (server ∷ servers) results names =
    names_from (i + 1) servers results (put_name server.id (name_of (get_elem? results i)) names)

unfoldable pub use_server_names :
    List Server → List (QueryResult (Option String)) → List (String × String)
unfolding names_from
use_server_names servers results = names_from 0 servers results []
