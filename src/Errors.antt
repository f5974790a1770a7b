-- ===== src/Errors.antt =====
-- web/src/api/errors.ts: the failures of a call, and how a response with an error status becomes
-- one. `JSON.parse` is the parameter `parse_json`, any function: nothing is assumed of it.
-- A reason is a text, since the code casts whatever the proxy sent.
pub mod Classify
pub mod Policy
mod Tests
use Prim.Native.String.{◌++◌}
use vlessvmorectl.Base.{
  ℕ, String, Bool, true, false, Option, none, some, List, str_eq, ◌==◌, trim, includes, or_default,
  or_else, lookup, if◌then◌else◌,
}
use vlessvmorectl.Json.{Json, property, readable, has_truthy, text_of}

pub data Likely : Type 0 where
  bad_token not_vlessvmore : Likely

-- An optional flag that is absent is `false`.
pub data VlessFailure : Type 0 where
  refused : Likely → VlessFailure
  not_found bad_request conflict forbidden : String → VlessFailure
  server_error : ℕ → String → VlessFailure
  unreachable : (reason detail : String) → VlessFailure
  unauthorized : (no_admins passkeys_enabled : Bool) → VlessFailure
  aborted : VlessFailure

unfoldable pub is_transient : VlessFailure → Bool
is_transient (unreachable _ _) = true
is_transient (server_error _ _) = true
is_transient _ = false

unfoldable pub is_terminal : VlessFailure → Bool
is_terminal (refused _) = true
is_terminal (forbidden _) = true
is_terminal (unauthorized _ _) = true
is_terminal _ = false

-- A response whose body has arrived; header names are in lower case.
pub record Response : Type 0 where
  pub status : ℕ
  pub headers : List (String × String)
  pub body : String

abbrev stdlib_not_found : String
stdlib_not_found = "404 page not found"

unfoldable pub is_json : Response → Bool
unfolding lookup
is_json res = includes (or_default (lookup "content-type" res.headers) "") "application/json"

-- `res.headers.get("x-proxy-error") === "1"`
unfoldable pub is_marked : Response → Bool
unfolding lookup
is_marked res = elim (lookup "x-proxy-error" res.headers) [ none ↦ false | some v ↦ str_eq v "1" ]

-- `parsed && typeof parsed === "object" && "error" in parsed`, then its text
error_of : Option Json → Option String
unfolding property
error_of none = none
error_of (some v) = elim (property "error" v) [ none ↦ none | some e ↦ some (text_of e) ]

-- The text of a field of the proxy's body where it is truthy, else the default.
field_or : String → String → Json → String
unfolding property has_truthy
field_or k d v = if has_truthy k v then elim (property k v) [ none ↦ d | some w ↦ text_of w ] else d

unreachable_of : String → Option Json → VlessFailure
unfolding field_or
unreachable_of raw none = unreachable "unknown" (trim raw)
unreachable_of raw (some v) =
    unreachable (field_or "proxy_error" "unknown" v) (field_or "error" (trim raw) v)

unfoldable pub unauthorized_of : Option Json → VlessFailure
unauthorized_of none = unauthorized false false
unauthorized_of (some v) = unauthorized (has_truthy "no_admins" v) (has_truthy "passkeys_enabled" v)

module _ (parse_json : String → Option Json) where
  unfoldable pub message : Response → String
  unfolding error_of
  message res =
      if is_json res
      then or_default (error_of (parse_json res.body)) (trim res.body)
      else trim res.body

  unfoldable pub classify : Response → VlessFailure
  unfolding unreachable_of unauthorized_of
  classify res =
      if is_marked res
      then unreachable_of res.body (readable (parse_json res.body))
      else if res.status == 401
      then unauthorized_of (readable (parse_json res.body))
      else if res.status == 403
      then forbidden (message res)
      else if res.status == 404
      then if is_json res
        then not_found (message res)
        else refused (if str_eq (trim res.body) stdlib_not_found then bad_token else not_vlessvmore)
      else if res.status == 400
      then bad_request (message res)
      else if res.status == 409
      then conflict (message res)
      else server_error res.status (message res)

module _ (decimal : ℕ → String) where
  unfoldable pub describe_failure : VlessFailure → String
  describe_failure (refused bad_token) = "the server rejected this panel's token"
  describe_failure (refused not_vlessvmore) =
      "something answered that does not look like vlessvmore"
  describe_failure (not_found m) = or_else m "not found"
  describe_failure (bad_request m) = or_else m "the server rejected the request"
  describe_failure (conflict m) = or_else m "that name is already taken"
  describe_failure (server_error s m) = or_else m ("the server returned " ++ decimal s)
  describe_failure (unreachable r d) = "could not reach the server (" ++ (r ++ ")")
  describe_failure (unauthorized _ _) = "your session has expired"
  describe_failure (forbidden m) = or_else m "this panel does not manage that server"
  describe_failure aborted = "cancelled"
