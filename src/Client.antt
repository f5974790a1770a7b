-- ===== src/Client.antt =====
-- web/src/queries/client.ts: the polling interval and the retry rule of the query client. A query's
-- error is a failure, another error, or none; `none` as an interval is `false`, no polling.
pub mod Backoff
mod Tests
use vlessvmorectl.Base.{ℕ, Bool, false, Option, none, some, ◌*◌, ◌^◌, min, ltb, ◌==◌, if◌then◌else◌}
use vlessvmorectl.Errors.{VlessFailure, is_terminal, is_transient}

abbrev pub poll_ms : ℕ
poll_ms = 10_000

abbrev pub poll_cap_ms : ℕ
poll_cap_ms = 120_000

-- What a query holds as its error: `isVlessError` tells the two kinds apart.
pub data QueryError : Type 0 where
  vless : VlessFailure → QueryError
  other : QueryError

-- The part of `query.state` that the interval reads.
pub record QueryState : Type 0 where
  pub error : Option QueryError
  pub fetch_failure_count : ℕ

unfoldable pub is_final : Option QueryError → Bool
is_final none = false
is_final (some other) = false
is_final (some (vless f)) = is_terminal f

unfoldable pub poll_with_backoff : ℕ → ℕ → QueryState → Option ℕ
unfolding is_final
poll_with_backoff base cap query =
    if is_final query.error
    then none
    else if query.fetch_failure_count == 0
    then some base
    else some (min (base * 2 ^ query.fetch_failure_count) cap)

-- the `retry` option of `makeQueryClient`
unfoldable pub retry : ℕ → QueryError → Bool
retry count other = false
retry count (vless f) = if is_transient f then ltb count 1 else false
