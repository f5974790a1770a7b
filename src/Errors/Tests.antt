-- ===== src/Errors/Tests.antt =====
-- Runs of `classify`, and the theorems about it at concrete responses.
use vlessvmorectl.Base.{
  ℕ, String, ◌≡◌, ◌↔◌, refl, false, Option, none, some, [], ◌∷◌, trim, str_eq, if◌then◌else◌,
}
use vlessvmorectl.Json.{Json, obj, field, end, str, readable, text_of}
use vlessvmorectl.Errors.{
  Response, refused, bad_token, not_found, unreachable, is_json, is_marked, stdlib_not_found,
  message, classify,
}
use vlessvmorectl.Errors.Classify.{classify-bad_token_iff}

-- A parser that knows one text.
abbrev parse_one : String → Option Json
parse_one s =
    if str_eq s "{no such user}" then some (obj (field "error" (str "no such user") end)) else none

abbrev decimal_none : ℕ → String
decimal_none n = ""

-- The node's refusal: Go's own 404 page.
abbrev rejection : Response
rejection = record {
  status = 404;
  headers = ("content-type", "text/plain; charset=utf-8") ∷ [];
  body = "404 page not found\n";
}

abbrev missing : Response
missing = record {
  status = 404;
  headers = ("content-type", "application/json") ∷ [];
  body = "{no such user}";
}

abbrev proxied : Response
proxied = record { status = 502; headers = ("x-proxy-error", "1") ∷ []; body = "dial tcp" }

classify-rejection : classify parse_one rejection ≡ refused bad_token
unfolding classify trim is_marked is_json
classify-rejection = refl

classify-missing : classify parse_one missing ≡ not_found "no such user"
unfolding classify message trim is_marked is_json text_of
classify-missing = refl

classify-proxied : classify parse_one proxied ≡ unreachable "unknown" "dial tcp"
unfolding classify trim is_marked readable
classify-proxied = refl

classify-bad_token_iff_example : (classify parse_one rejection ≡ refused bad_token) ↔ (
    (is_marked rejection ≡ false)
    × (rejection.status ≡ 404)
    × (is_json rejection ≡ false)
    × (trim rejection.body ≡ stdlib_not_found))
classify-bad_token_iff_example = classify-bad_token_iff parse_one rejection
