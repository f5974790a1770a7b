-- ===== src/Client/Tests.antt =====
-- Runs of the polling schedule, and the theorems about it at concrete queries.
use vlessvmorectl.Base.{ℕ, ◌≡◌, refl, Option, none, some, min, ◌*◌, arith, String, []}
use vlessvmorectl.Json.{Json}
use vlessvmorectl.Errors.{Response, unreachable, is_terminal}
use vlessvmorectl.Client.{vless, QueryState, poll_with_backoff, poll_ms, poll_cap_ms}
use vlessvmorectl.Client.Backoff.{poll_with_backoff_step}

abbrev after : ℕ → QueryState
after n = record {
  error = some (vless (unreachable "dns" "no such host"));
  fetch_failure_count = n;
}

first_retry : poll_with_backoff poll_ms poll_cap_ms (after 1) ≡ some 20_000
unfolding poll_with_backoff is_terminal
first_retry = refl

third_retry : poll_with_backoff poll_ms poll_cap_ms (after 3) ≡ some 80_000
unfolding poll_with_backoff is_terminal
third_retry = refl

sixth_retry : poll_with_backoff poll_ms poll_cap_ms (after 6) ≡ some 120_000
unfolding poll_with_backoff is_terminal
sixth_retry = refl

poll_with_backoff_step_example : 20_000 ≡ min (2 * 10_000) poll_cap_ms
unfolding poll_with_backoff is_terminal
poll_with_backoff_step_example =
    poll_with_backoff_step poll_ms poll_cap_ms (some (vless (unreachable "dns" "no such host"))) 0
      10_000 20_000 (omega arith) refl refl

abbrev parse_none : String → Option Json
parse_none s = none

abbrev rejection : Response
rejection = record { status = 404; headers = []; body = "404 page not found" }
