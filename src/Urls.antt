-- ===== src/Urls.antt =====
-- web/src/api/transport.ts: the requests that ProxyTransport makes, and the part of
-- web/src/routes/ServerPage.tsx that keeps the open drawer in the address. URL and URLSearchParams are
-- the platform's: an interface with the laws of reading back a parameter that was set or deleted,
-- and an address that was printed. `address` is an address without its parameters.
pub mod Target
pub mod Plain
mod Tests
use Prim.Native.String.{◌++◌}
use vlessvmorectl.Base.{
  ℕ, String, Bool, Option, none, some, List, [], ◌∷◌, ◌≡◌, ◌≢◌, str_eq, if◌then◌else◌,
}
use vlessvmorectl.Types.{Server}
use vlessvmorectl.Transport.{Method, QueryValue, text, number, Query, RequestOptions}

pub record UrlApi : Type 1 where
  pub Url : Type 0
  pub parse_url : (path base : String) → Url
  pub to_string : Url → String
  pub address : Url → String
  pub get_param : String → Url → Option String
  pub set_param : String → String → Url → Url
  pub delete_param : String → Url → Url
  pub get-set : (k v : String) (u : Url) → get_param k (set_param k v u) ≡ some v
  pub get-set_other :
      (k j v : String) (u : Url) → j ≢ k → get_param j (set_param k v u) ≡ get_param j u
  pub get-delete : (k : String) (u : Url) → get_param k (delete_param k u) ≡ none
  pub get-delete_other :
      (k j : String) (u : Url) → j ≢ k → get_param j (delete_param k u) ≡ get_param j u
  pub address-set : (k v : String) (u : Url) → address (set_param k v u) ≡ address u
  pub address-printed :
      (u : Url) (base : String) → address (parse_url (to_string u) base) ≡ address u
  pub get-printed :
      (k : String) (u : Url) (base : String)
      → get_param k (parse_url (to_string u) base) ≡ get_param k u

-- What is handed to `fetch`: `RequestInit` with its method, and the address
pub record FetchInit (S : Type 0) : Type 0 where
  pub method : Method
  pub headers : List (String × String)
  pub credentials : String
  pub signal : Option S
  pub body : Option String

module _ {B S : Type 0} (stringify : B → String) where
  unfoldable pub init : Method → RequestOptions B S → FetchInit S
  init method opts = elim opts.body [
    | none ↦ record {
      method = method;
      headers = ("Accept", "application/json") ∷ [];
      credentials = "same-origin";
      signal = opts.signal;
      body = none;
    }
    | some b ↦ record {
      method = method;
      headers = ("Accept", "application/json") ∷ ("Content-Type", "application/json") ∷ [];
      credentials = "same-origin";
      signal = opts.signal;
      body = some (stringify b);
    }
  ]

module _ (api : UrlApi) (decimal : ℕ → String) where
  open api use {Url, parse_url, to_string, set_param}

  -- `String(v)`
  unfoldable pub value_text : QueryValue → String
  value_text (text s) = s
  value_text (number n) = decimal n

  -- One round of the loop of `withQuery`; undefined is left out.
  unfoldable pub put_param : String → Option QueryValue → Url → Url
  unfolding value_text
  put_param k none u = u
  put_param k (some v) u = set_param k (value_text v) u

  unfoldable pub put_params : Query → Url → Url
  unfolding put_param
  put_params [] u = u
  put_params ((k, v) ∷ q) u = put_params q (put_param k v u)

  unfoldable pub with_query_of : Option Query → Url → Url
  unfolding put_params
  with_query_of none u = u
  with_query_of (some q) u = put_params q u

  module _ (origin : String) where
    -- The address that `panel` fetches
    unfoldable pub panel_url : (path : String) → Option Query → Url
    unfolding with_query_of
    panel_url path query = with_query_of query (parse_url path origin)

    unfoldable pub target_url : Server → (path : String) → Option Query → Url
    unfolding with_query_of
    target_url server path query = with_query_of query (parse_url path server.url)

    -- The address that `node` fetches
    unfoldable pub node_url : Server → (path : String) → Option Query → Url
    unfolding target_url
    node_url server path query =
        set_param "url" (to_string (target_url server path query)) (parse_url "/api/proxy" origin)

module _ (api : UrlApi) where
  open api use {Url, get_param, set_param, delete_param}

  -- `setSelected` of the server page: the parameter `user` of its address
  unfoldable pub set_selected : Option String → Url → Url
  set_selected none u = delete_param "user" u
  set_selected (some id) u = if str_eq id "" then delete_param "user" u else set_param "user" id u

  unfoldable pub selected : Url → Option String
  selected u = get_param "user" u
