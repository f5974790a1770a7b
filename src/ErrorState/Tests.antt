-- ===== src/ErrorState/Tests.antt =====
-- Cards of failures.
use vlessvmorectl.Base.{ℕ, String, ◌≡◌, refl, Option, none, some, [], ◌∷◌}
use vlessvmorectl.Json.{Json, obj, field, end, str}
use vlessvmorectl.Errors.{Response, refused, bad_token, unreachable}
use vlessvmorectl.ErrorState.{explain}

abbrev decimal_none : ℕ → String
decimal_none n = ""

abbrev body_of : Json
body_of = obj (field "error" (str "no such user") end)

abbrev parse_one : String → Option Json
parse_one s = some body_of

abbrev missing : Response
missing = record {
  status = 404;
  headers = ("content-type", "application/json") ∷ [];
  body = "{\"error\":\"no such user\"}";
}

token_card :
    (explain decimal_none (some "nl.example") (some (refused bad_token)) "").title
    ≡ "Token rejected on nl.example"
unfolding explain
token_card = refl

timeout_card :
    (explain decimal_none none (some (unreachable "timeout" "10s")) "").hint
    ≡ some "It may be overloaded, or a firewall may be dropping packets silently. (10s)"
unfolding explain
timeout_card = refl
