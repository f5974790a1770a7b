-- ===== src/ErrorState.antt =====
-- web/src/components/ErrorState.tsx: the card that explains a failure. `error_text` is the text of what
-- was thrown, which is shown where that is no failure of a call, and `decimal` prints a number. A
-- reason is a text, since the code casts whatever the proxy sent.
pub mod Message
mod Tests
use Prim.Native.String.{◌++◌}
use vlessvmorectl.Base.{ℕ, String, Option, none, some, str_eq, truthy, or_else, if◌then◌else◌}
use vlessvmorectl.Errors.{
  bad_token, not_vlessvmore, VlessFailure, refused, not_found, bad_request, conflict, forbidden,
  server_error, unreachable, unauthorized, aborted,
}

pub record Explanation : Type 0 where
  pub title : String
  pub body : String
  pub hint : Option String

abbrev pub with_hint : String → String → Explanation
with_hint body hint = record { title = "Cannot reach the node"; body = body; hint = some hint }

abbrev pub only_body : String → Explanation
only_body body = record { title = "Cannot reach the node"; body = body; hint = none }

-- The body and the hint of `unreachableBody`, with the title of its caller.
unfoldable pub unreachable_body : (reason detail : String) → Explanation
unreachable_body reason detail =
    let quoted = "(" ++ (detail ++ ")") in
    if str_eq reason "dns"
    then with_hint "The hostname does not resolve from this panel's host."
        ("Check the URL in VLESSVMORE_SERVERS. " ++ quoted)
    else if str_eq reason "refused"
    then with_hint "Nothing is listening at that address, or the connection was refused." (
        "The node may be down, or its management port may not be reachable from this container's network. "
        ++ quoted)
    else if str_eq reason "tls"
    then with_hint "The TLS handshake failed." (
        "Usually an expired or untrusted certificate, or an https:// URL pointing at a plaintext port. "
        ++ quoted)
    else if str_eq reason "timeout"
    then with_hint "The node did not answer in time."
        ("It may be overloaded, or a firewall may be dropping packets silently. " ++ quoted)
    else if str_eq reason "canceled"
    then only_body "The request was cancelled before it finished."
    else if str_eq reason "offline"
    then only_body "Your browser reports it is offline."
    else if str_eq reason "cors"
    then with_hint "The node is up, but the browser blocked its response."
        "Add this panel's origin to cors_origins in that node's config.json and restart it."
    else if str_eq reason "mixed-content"
    then only_body
        "This panel is on https:// and the node is configured as http://, so the browser blocked the request."
    else only_body (or_else detail "The reason is not clear.")

-- `context ? ` on ${context}` : ""`
unfoldable pub where_text : Option String → String
where_text none = ""
where_text (some context) = if truthy context then " on " ++ context else ""

module _ (decimal : ℕ → String) (context : Option String) where
  -- `explain` of a failure of a call
  unfoldable pub explain_failure : VlessFailure → Explanation
  unfolding unreachable_body where_text
  explain_failure (refused bad_token) = record {
    title = "Token rejected" ++ where_text context;
    body =
        "The node answered, but it does not recognise the token this panel is using. vlessvmore has no 401 — every refusal looks like a 404 — so this is what that means.";
    hint =
        some
          "Check the token for this node in VLESSVMORE_SERVERS. Mint a fresh one on the node with `docker exec vlessvmore vlessvmore token create panel --raw`, then restart this panel.";
  }
  explain_failure (refused not_vlessvmore) = record {
    title = "Unexpected response" ++ where_text context;
    body =
        "Something answered with a 404 that does not look like vlessvmore — most likely a reverse proxy or CDN in front of it, returning its own error page.";
    hint = some "Check the URL for this node, and anything sitting in front of it.";
  }
  explain_failure (unreachable reason detail) = record (unreachable_body reason detail) {
    title = "Cannot reach the node" ++ where_text context;
  }
  explain_failure (not_found m) = record { title = "Not found"; body = m; hint = none }
  explain_failure (bad_request m) = record {
    title = "The node rejected that";
    body = m;
    hint =
        some "vlessvmore refuses unknown fields outright, so this is usually a version mismatch.";
  }
  explain_failure (conflict m) = record { title = "Already taken"; body = m; hint = none }
  explain_failure (server_error status m) = record {
    title = "The node failed" ++ where_text context;
    body = or_else m ("It returned " ++ (decimal status ++ "."));
    hint = some "Check the node's own logs — this happened inside vlessvmore, not in this panel.";
  }
  explain_failure (unauthorized _ _) = record {
    title = "Session expired";
    body = "Sign in again to continue.";
    hint = none;
  }
  explain_failure (forbidden m) = record {
    title = "Refused by this panel";
    body = m;
    hint =
        some
          "This is a bug in the panel rather than a configuration problem — it asked to proxy a URL it does not manage.";
  }
  explain_failure aborted = record {
    title = "Cancelled";
    body = "The request was cancelled.";
    hint = none;
  }

  unfoldable pub explain : Option VlessFailure → String → Explanation
  unfolding explain_failure
  explain none error_text = record {
    title = "Something went wrong";
    body = error_text;
    hint = none;
  }
  explain (some failure) error_text = explain_failure failure
