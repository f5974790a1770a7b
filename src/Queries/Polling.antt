-- ===== src/Queries/Polling.antt =====
-- What goes on being polled once a node has rejected the panel's token.
use vlessvmorectl.Base.{ℕ, String, ◌≡◌, refl, false, Option, none, some}
use vlessvmorectl.Json.{Json}
use vlessvmorectl.Errors.{Response, is_marked, is_json, classify}
use vlessvmorectl.Types.{Server}
use vlessvmorectl.Range.{SnappedRange}
use vlessvmorectl.Client.{QueryState, vless, poll_ms, poll_cap_ms}
use vlessvmorectl.Client.Backoff.{rejected_token_stops}
use vlessvmorectl.Queries.{
  next_interval, usage_interval, use_server_status, use_users, use_user_usage, default_options,
}

-- A query that was refused with that answer, after some failures.
abbrev pub refused_state : (parse_json : String → Option Json) → Response → ℕ → QueryState
refused_state parse_json res failures = record {
  error = some (vless (classify parse_json res));
  fetch_failure_count = failures;
}

-- Once a node has rejected the panel's token (an unmarked 404 that is not JSON), its status and its
-- users are no longer polled, but the usage of an open user still is, every minute or every five.
pub next_interval-rejected :
    (parse_json : String → Option Json) (encode : String → String) (res : Response) (failures : ℕ)
    (server : Server) (user_id : String) (range : SnappedRange)
    → is_marked res ≡ false
    → res.status ≡ 404
    → is_json res ≡ false
    → (next_interval (use_server_status server).interval (refused_state parse_json res failures)
        ≡ none)
      × (next_interval (use_users server).interval (refused_state parse_json res failures) ≡ none)
      × (next_interval
            (use_user_usage encode server user_id range).interval
            (refused_state parse_json res failures)
          ≡ some (usage_interval range.bucket))
unfolding next_interval use_server_status use_users use_user_usage default_options
next_interval-rejected parse_json encode res failures server user_id range m s j =
    let (stops, once) = rejected_token_stops parse_json res poll_ms poll_cap_ms failures 0 m s j in
    (stops, stops, refl)
