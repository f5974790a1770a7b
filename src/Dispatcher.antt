-- ===== src/Dispatcher.antt =====
-- web/src/api/dispatcher.ts: how a request is run. `JSON.parse`, the printing of a number,
-- `navigator.onLine`, `text.slice(0, 120)` and `AbortSignal.any` are parameters.
pub mod Calls
mod Tests
use Prim.Native.String.{◌++◌}
use vlessvmorectl.Base.{
  ℕ, String, Bool, true, false, ◌&&◌, Option, none, some, leb, ◌==◌, truthy, if◌then◌else◌,
}
use vlessvmorectl.Json.{Json}
use vlessvmorectl.Errors.{
  VlessFailure, aborted, unreachable, server_error, Response, classify, describe_failure,
}
use vlessvmorectl.Transport.{
  Scope, panel, node, ApiDispatcherRequest, RequestOptions, Fetched, responded, cancelled, broken,
  Transport, server_id_of,
}

pub record VlessError : Type 0 where
  pub message : String
  pub failure : VlessFailure
  pub server_id : Option String

-- What `call` comes to: a body, where `none` is `undefined`, or the error that it throws.
pub data Outcome : Type 0 where
  returned : Option Json → Outcome
  thrown : VlessError → Outcome

pub record ApiDispatcher (B S : Type 0) : Type 0 where
  pub transport : Transport B S
  pub signal : Option S

-- `res.ok` of the Fetch standard
unfoldable pub is_ok : Response → Bool
is_ok res = leb 200 res.status && leb res.status 299

module _ {B S : Type 0} where
  -- `merge` is `AbortSignal.any` of two signals.
  unfoldable pub with_signal : (merge : S → S → S) → S → ApiDispatcher B S → ApiDispatcher B S
  with_signal merge signal d = record {
    transport = d.transport;
    signal = some (elim d.signal [ none ↦ signal | some own ↦ merge own signal ]);
  }

  unfoldable pub options : ApiDispatcher B S → ApiDispatcherRequest B → RequestOptions B S
  options d request = record { query = request.query; body = request.body; signal = d.signal }

  -- what the transport makes of a request
  unfoldable pub send : ApiDispatcher B S → ApiDispatcherRequest B → Fetched
  unfolding options
  send d request = elim request.scope [
    | panel ↦ d.transport.panel request.method request.path (options d request)
    | node server ↦ d.transport.node server request.method request.path (options d request)
  ]

-- `VlessError.create`
unfoldable pub create : (decimal : ℕ → String) → VlessFailure → Option String → VlessError
create decimal failure server_id = record {
  message = describe_failure decimal failure;
  failure = failure;
  server_id = server_id;
}

module _ (parse_json : String → Option Json) (decimal : ℕ → String) (excerpt : String → String)
    (online : Bool) where
  unfoldable pub parse : Response → Option String → Outcome
  unfolding create
  parse res server_id =
      if res.status == 204
      then returned none
      else if truthy res.body
      then elim (parse_json res.body) [
        | some v ↦ returned (some v)
        | none ↦ thrown (
            create decimal (server_error res.status ("expected JSON, got " ++ excerpt res.body))
              server_id)
      ]
      else returned none

  -- `call` after the transport has answered
  unfoldable pub settle : Option String → Fetched → Outcome
  unfolding create parse
  settle server_id cancelled = thrown (create decimal aborted server_id)
  settle server_id (broken detail) =
      thrown
        (create decimal (unreachable (if online then "unknown" else "offline") detail) server_id)
  settle server_id (responded res) =
      if is_ok res
      then parse res server_id
      else thrown (create decimal (classify parse_json res) server_id)

  unfoldable pub call : {B S : Type 0} → ApiDispatcher B S → ApiDispatcherRequest B → Outcome
  unfolding send settle
  call d request = settle (server_id_of request.scope) (send d request)
