-- ===== src/Actions.antt =====
-- web/src/api/actions: the request that each action makes of the dispatcher. `encode` is
-- `encodeURIComponent`. What `.then` takes out of the answer is not modelled. Passkeys has the
-- requests about passkeys, some of whose bodies come from the browser.
pub mod Paths
pub mod Passkeys
mod Tests
use Prim.Native.String.{◌++◌}
use vlessvmorectl.Base.{ℕ, String, Option, none, some, [], ◌∷◌}
use vlessvmorectl.Types.{Server}
use vlessvmorectl.Range.{Bucket}
use vlessvmorectl.Keys.{bucket_word}
use vlessvmorectl.Patch.{
  Body, Result, ok, text, flag, assign, ◌>>=◌, UserPatchFields, UserCreateFields, patch_body,
  create_body,
}
use vlessvmorectl.Hooks.Users.{SubscriberPatch}
use vlessvmorectl.Transport
use vlessvmorectl.Transport.{
  Method, get, post, patch, delete, Scope, panel, node, Query, ApiDispatcherRequest,
}

abbrev pub Request : Type 0
Request = ApiDispatcherRequest Body

-- a request with neither query nor body
unfoldable pub plain : Scope → Method → String → Request
plain scope method path = record {
  scope = scope;
  method = method;
  path = path;
  query = none;
  body = none;
}

unfoldable pub with_query : Query → Request → Request
with_query query request = record request { query = some query }

unfoldable pub with_body : Body → Request → Request
with_body body request = record request { body = some body }

-- the panel's own backend: auth.ts, account.ts and servers.ts
unfoldable pub post_login : String → String → Request
unfolding plain with_body
post_login username password =
    with_body (("username", text username) ∷ ("password", text password) ∷ [])
      (plain panel post "/api/login")

abbrev pub post_logout : Request
unfolding plain
post_logout = plain panel post "/api/logout"

abbrev pub get_me : Request
unfolding plain
get_me = plain panel get "/api/me"

unfoldable pub post_account_password : String → String → Request
unfolding plain with_body
post_account_password current_password new_password =
    with_body
      (("current_password", text current_password) ∷ ("new_password", text new_password) ∷ [])
      (plain panel post "/api/account/password")

unfoldable pub post_account_username : String → Request
unfolding plain with_body
post_account_username username =
    with_body (("username", text username) ∷ []) (plain panel post "/api/account/username")

abbrev pub get_servers : Request
unfolding plain
get_servers = plain panel get "/api/servers"

-- a node's own endpoints: server.ts, status.ts, reload.ts and tokens.ts
unfoldable pub get_server : Server → Request
unfolding plain
get_server server = plain (node server) get "/api/server"

unfoldable pub get_status : Server → Request
unfolding plain
get_status server = plain (node server) get "/api/status"

unfoldable pub post_reload : Server → Request
unfolding plain
post_reload server = plain (node server) post "/api/reload"

unfoldable pub get_tokens : Server → Request
unfolding plain
get_tokens server = plain (node server) get "/api/tokens"

abbrev pub users_base : String
users_base = "/api/users"

abbrev pub subscribers_base : String
subscribers_base = "/api/subscribers"

module _ (encode : String → String) where
  -- `byId` of users.ts
  unfoldable pub user_by_id : String → String
  user_by_id id = users_base ++ ("/" ++ encode id)

  unfoldable pub get_users_by_id : Server → String → Request
  unfolding plain user_by_id
  get_users_by_id server id = plain (node server) get (user_by_id id)

  unfoldable pub delete_users_by_id : Server → String → Request
  unfolding plain user_by_id
  delete_users_by_id server id = plain (node server) delete (user_by_id id)

  unfoldable pub post_users_by_id_reset_usage : Server → String → Request
  unfolding plain user_by_id
  post_users_by_id_reset_usage server id =
      plain (node server) post (user_by_id id ++ "/reset-usage")

  unfoldable pub post_users_by_id_rotate_sub : Server → String → Request
  unfolding plain user_by_id
  post_users_by_id_rotate_sub server id = plain (node server) post (user_by_id id ++ "/rotate-sub")

  unfoldable pub get_users_by_id_link : Server → String → Request
  unfolding plain user_by_id
  get_users_by_id_link server id = plain (node server) get (user_by_id id ++ "/link")

  unfoldable pub get_users_by_id_usage : Server → String → ℕ → Bucket → Request
  unfolding plain with_query user_by_id
  get_users_by_id_usage server id from_unix bucket =
      with_query
        (("from", some (Transport.number from_unix))
          ∷ ("bucket", some (Transport.text (bucket_word bucket)))
          ∷ [])
        (plain (node server) get (user_by_id id ++ "/usage"))

  -- subscribers.ts
  unfoldable pub subscriber_by_id : String → String
  subscriber_by_id id = subscribers_base ++ ("/" ++ encode id)

  unfoldable pub entries_of : String → String
  unfolding subscriber_by_id
  entries_of id = subscriber_by_id id ++ "/entries"

  unfoldable pub entry_by_id : String → String → String
  unfolding entries_of
  entry_by_id id entry_id = entries_of id ++ ("/" ++ encode entry_id)

  unfoldable pub get_subscribers_by_id : String → Request
  unfolding plain subscriber_by_id
  get_subscribers_by_id id = plain panel get (subscriber_by_id id)

  -- An absent field of the patch is an absent key of the body.
  unfoldable pub patch_subscribers_by_id : String → SubscriberPatch → Request
  unfolding plain with_body subscriber_by_id assign
  patch_subscribers_by_id id p =
      with_body
        (assign flag "disabled" p.disabled
          (assign text "note" p.note (assign text "name" p.name [])))
        (plain panel patch (subscriber_by_id id))

  unfoldable pub delete_subscribers_by_id : String → Request
  unfolding plain subscriber_by_id
  delete_subscribers_by_id id = plain panel delete (subscriber_by_id id)

  unfoldable pub post_subscribers_by_id_entries : String → String → String → String → Request
  unfolding plain with_body entries_of
  post_subscribers_by_id_entries id server_id vless_user_id label =
      with_body
        (("server_id", text server_id)
          ∷ ("vless_user_id", text vless_user_id)
          ∷ ("label", text label)
          ∷ [])
        (plain panel post (entries_of id))

  unfoldable pub patch_entry : String → String → String → Request
  unfolding plain with_body entry_by_id
  patch_entry id entry_id label =
      with_body (("label", text label) ∷ []) (plain panel patch (entry_by_id id entry_id))

  unfoldable pub delete_entry : String → String → Request
  unfolding plain entry_by_id
  delete_entry id entry_id = plain panel delete (entry_by_id id entry_id)

  -- `patchUsersById`; a body that `toBody` refuses makes no request
  unfoldable pub patch_users_by_id :
      {Date : Type 0}
      → (Date → Option String)
      → Server
      → String
      → UserPatchFields Date
      → Result Request
  unfolding plain with_body user_by_id patch_body
  patch_users_by_id to_iso_string server id fields = do
    body ← patch_body to_iso_string fields
    ok (with_body body (plain (node server) patch (user_by_id id)))

unfoldable pub get_users : Server → Request
unfolding plain with_query
get_users server =
    with_query (("include", some (Transport.text "usage")) ∷ [])
      (plain (node server) get users_base)

unfoldable pub post_users :
    {Date : Type 0} → (Date → Option String) → Server → UserCreateFields Date → Result Request
unfolding plain with_body create_body
post_users to_iso_string server input = do
  body ← create_body to_iso_string input
  ok (with_body body (plain (node server) post users_base))

abbrev pub get_subscribers : Request
unfolding plain
get_subscribers = plain panel get subscribers_base

unfoldable pub post_subscribers : String → String → Request
unfolding plain with_body
post_subscribers name note =
    with_body (("name", text name) ∷ ("note", text note) ∷ []) (plain panel post subscribers_base)
