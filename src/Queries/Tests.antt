-- ===== src/Queries/Tests.antt =====
-- The queries of a panel with two nodes.
use vlessvmorectl.Base.{
  String, ◌≡◌, refl, Option, none, some, List, [], ◌∷◌, In, inl, inr, str_eq, if◌then◌else◌,
}
use vlessvmorectl.Json.{Json}
use vlessvmorectl.Errors.{Response, is_marked, is_json}
use vlessvmorectl.Types.{Server}
use vlessvmorectl.Range.{hour, SnappedRange}
use vlessvmorectl.Queries.{
  next_interval, use_server_status, use_users, use_user_usage, default_options, user_usage,
}
use vlessvmorectl.Queries.Requests.{parts-request}
use vlessvmorectl.Queries.Polling.{refused_state, next_interval-rejected}

abbrev netherlands : Server
netherlands = record { id = "nl"; url = "https://nl.example.com" }

abbrev germany : Server
germany = record { id = "de"; url = "https://de.example.com" }

abbrev two_nodes : List Server
two_nodes = netherlands ∷ germany ∷ []

abbrev by_id : String → Server
by_id id = if str_eq id "nl" then netherlands else germany

by_id-known : (s : Server) → In s two_nodes → by_id s.id ≡ s
by_id-known s (inl e) = rw e refl
by_id-known s (inr (inl e)) = rw e refl
by_id-known s (inr (inr h)) = elim h [ ]

abbrev no_encoding : String → String
no_encoding s = s

abbrev day_range : SnappedRange
day_range = record {
  from_unix = 1_000;
  bucket = hour;
  step_ms = 3_600_000;
  from = 1_000_000;
  end = 90_000_000;
}

-- The same hours snapped at a later instant of the last hour
abbrev later_range : SnappedRange
later_range = record day_range { end = 90_000_001 }

parts-request_example :
    (use_user_usage no_encoding netherlands "u1" day_range).request
    ≡ (use_user_usage no_encoding netherlands "u1" later_range).request
unfolding use_user_usage default_options
parts-request_example =
    parts-request no_encoding by_id two_nodes by_id-known
      (use_user_usage no_encoding netherlands "u1" day_range)
      (use_user_usage no_encoding netherlands "u1" later_range)
      (user_usage netherlands "u1" day_range (inl refl))
      (user_usage netherlands "u1" later_range (inl refl)) refl

abbrev parse_none : String → Option Json
parse_none s = none

abbrev not_ours : Response
not_ours = record { status = 404; headers = []; body = "404 page not found" }

next_interval-rejected_example :
    (next_interval (use_server_status netherlands).interval (refused_state parse_none not_ours 3)
      ≡ none)
    × (next_interval (use_users netherlands).interval (refused_state parse_none not_ours 3) ≡ none)
    × (next_interval
          (use_user_usage no_encoding netherlands "u1" day_range).interval
          (refused_state parse_none not_ours 3)
        ≡ some 60_000)
unfolding is_marked is_json
next_interval-rejected_example =
    next_interval-rejected parse_none no_encoding not_ours 3 netherlands "u1" day_range refl refl
      refl
