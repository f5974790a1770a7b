-- ===== src/Queries.antt =====
-- web/src/queries/hooks.ts: what each query hook asks of the query client, with the defaults that
-- `makeQueryClient` of web/src/queries/client.ts sets. The query library is not modelled: an interval
-- that is a number is that number whatever became of the last request, as the library documents.
pub mod Requests
pub mod Polling
mod Tests
use vlessvmorectl.Base.{ℕ, ◌*◌, ◌/◌, String, Bool, true, false, Option, none, some, List, In}
use vlessvmorectl.Types.{Server}
use vlessvmorectl.Range.{Bucket, hour, day, SnappedRange}
use vlessvmorectl.Transport.{Method, Scope, Query, ApiDispatcherRequest}
use vlessvmorectl.Keys.{QueryKey}
use vlessvmorectl.Client.{QueryState, poll_with_backoff, poll_ms, poll_cap_ms}
use vlessvmorectl.Actions.{
  get_me, get_servers, get_server, get_status, get_tokens, get_users, get_users_by_id_link,
  get_users_by_id_usage, get_subscribers,
}
use vlessvmorectl.Actions.Passkeys.{get_passkeys, PasskeyBody}

-- A time to keep, in milliseconds; `Infinity` is a number of its own.
pub data Span : Type 0 where
  ms : ℕ → Span
  forever : Span

-- `refetchInterval`
pub data Interval : Type 0 where
  never : Interval
  every : ℕ → Interval
  backing_off : Interval

-- A request without its body: no query has one.
pub record Asked : Type 0 where
  pub scope : Scope
  pub method : Method
  pub path : String
  pub query : Option Query

unfoldable pub without_body : {B : Type 0} → ApiDispatcherRequest B → Asked
without_body r = record { scope = r.scope; method = r.method; path = r.path; query = r.query }

pub record QueryOptions : Type 0 where
  pub key : QueryKey
  pub request : Asked
  pub stale_time : Span
  pub gc_time : Span
  pub interval : Interval
  pub can_retry : Bool
  pub refetch_on_focus : Bool

-- `defaultOptions.queries`
unfoldable pub default_options : QueryKey → Asked → QueryOptions
default_options key request = record {
  key = key;
  request = request;
  stale_time = ms (poll_ms / 2);
  gc_time = ms (5 * 60_000);
  interval = never;
  can_retry = true;
  refetch_on_focus = true;
}

-- The next interval of a query in a state; `none` is no polling.
unfoldable pub next_interval : Interval → QueryState → Option ℕ
unfolding poll_with_backoff
next_interval never state = none
next_interval (every n) state = some n
next_interval backing_off state = poll_with_backoff poll_ms poll_cap_ms state

abbrev pub use_session : QueryOptions
unfolding default_options without_body
use_session = record (default_options QueryKey.session (without_body get_me)) {
  stale_time = ms 60_000;
  interval = every (5 * 60_000);
  can_retry = false;
}

abbrev pub use_servers : QueryOptions
unfolding default_options without_body
use_servers = record (default_options QueryKey.servers (without_body get_servers)) {
  stale_time = ms (5 * 60_000);
}

unfoldable pub use_server_info : Server → QueryOptions
unfolding default_options without_body get_server
use_server_info server =
    record (default_options (QueryKey.server_info server.id) (without_body (get_server server))) {
      stale_time = forever;
      gc_time = forever;
      refetch_on_focus = false;
    }

unfoldable pub use_server_status : Server → QueryOptions
unfolding default_options without_body get_status
use_server_status server =
    record (default_options (QueryKey.server_status server.id) (without_body (get_status server))) {
      interval = backing_off;
    }

-- also each of the queries of `useUsersByServer`
unfoldable pub use_users : Server → QueryOptions
unfolding default_options without_body get_users
use_users server =
    record (default_options (QueryKey.users server.id) (without_body (get_users server))) {
      interval = backing_off;
    }

unfoldable pub use_tokens : Server → QueryOptions
unfolding default_options without_body get_tokens
use_tokens server =
    record (default_options (QueryKey.tokens server.id) (without_body (get_tokens server))) {
      stale_time = ms 30_000;
    }

unfoldable pub use_passkeys : QueryOptions
unfolding default_options without_body get_passkeys
use_passkeys =
    record (default_options QueryKey.passkeys (without_body (get_passkeys {Credential = Unit}))) {
      stale_time = ms 30_000;
    }

abbrev pub use_subscribers : QueryOptions
unfolding default_options without_body
use_subscribers = record (default_options QueryKey.subscribers (without_body get_subscribers)) {
  stale_time = ms 30_000;
  gc_time = ms 60_000;
}

abbrev pub usage_interval : Bucket → ℕ
usage_interval hour = 60_000
usage_interval day = 300_000

module _ (encode : String → String) where
  unfoldable pub use_user_link : Server → (user_id : String) → QueryOptions
  unfolding default_options without_body get_users_by_id_link
  use_user_link server user_id =
      record (default_options (QueryKey.user_link server.id user_id)
        (without_body (get_users_by_id_link encode server user_id))) {
          stale_time = forever;
          gc_time = ms 30_000;
          refetch_on_focus = false;
        }

  unfoldable pub use_user_usage : Server → (user_id : String) → SnappedRange → QueryOptions
  unfolding default_options without_body get_users_by_id_usage
  use_user_usage server user_id range =
      record (default_options (QueryKey.user_usage server.id user_id range.from_unix range.bucket)
        (without_body (get_users_by_id_usage encode server user_id range.from_unix range.bucket))) {
          interval = every (usage_interval range.bucket);
          stale_time = ms 30_000;
        }

  -- The queries that the screens make of the nodes they know: each constructor is a hook.
  pub data Hook (nodes : List Server) : QueryOptions → Type 0 where
    session : Hook nodes use_session
    servers : Hook nodes use_servers
    passkeys : Hook nodes use_passkeys
    subscribers : Hook nodes use_subscribers
    server_info : (server : Server) → In server nodes → Hook nodes (use_server_info server)
    server_status : (server : Server) → In server nodes → Hook nodes (use_server_status server)
    users : (server : Server) → In server nodes → Hook nodes (use_users server)
    tokens : (server : Server) → In server nodes → Hook nodes (use_tokens server)
    user_link :
        (server : Server) (user_id : String)
        → In server nodes
        → Hook nodes (use_user_link server user_id)
    user_usage :
        (server : Server) (user_id : String) (range : SnappedRange)
        → In server nodes
        → Hook nodes (use_user_usage server user_id range)
