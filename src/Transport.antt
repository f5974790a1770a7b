-- ===== src/Transport.antt =====
-- web/src/api/request.ts and web/src/api/transport.ts: what a request is, and what a transport
-- promises. A body is of any type `B` and a signal of any type `S`; what the platform makes of them
-- is not this code's.
use vlessvmorectl.Base.{ℕ, String, Option, none, some, List}
use vlessvmorectl.Errors.{Response}
use vlessvmorectl.Types.{Server}

pub data Method : Type 0 where
  get post patch delete : Method

pub data Scope : Type 0 where
  panel : Scope
  node : Server → Scope

pub data QueryValue : Type 0 where
  text : String → QueryValue
  number : ℕ → QueryValue

-- an absent value is `undefined`
abbrev pub Query : Type 0
Query = List (String × Option QueryValue)

pub record ApiDispatcherRequest (B : Type 0) : Type 0 where
  pub scope : Scope
  pub method : Method
  pub path : String
  pub query : Option Query
  pub body : Option B

pub record RequestOptions (B S : Type 0) : Type 0 where
  pub query : Option Query
  pub body : Option B
  pub signal : Option S

-- What a call of the transport comes to: a response, an `AbortError`, or another error with its text.
pub data Fetched : Type 0 where
  responded : Response → Fetched
  cancelled : Fetched
  broken : String → Fetched

pub record Transport (B S : Type 0) : Type 0 where
  pub panel : Method → String → RequestOptions B S → Fetched
  pub node : Server → Method → String → RequestOptions B S → Fetched

-- `scope === "panel" ? undefined : scope.id`
abbrev pub server_id_of : Scope → Option String
server_id_of panel = none
server_id_of (node server) = some server.id
