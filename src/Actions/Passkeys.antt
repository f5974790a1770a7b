-- ===== src/Actions/Passkeys.antt =====
-- web/src/api/actions/passkeys.ts: the requests about passkeys. A body names what it carries; a
-- credential is of any type.
use Prim.Native.String.{◌++◌}
use vlessvmorectl.Base.{String, Option, none, some}
use vlessvmorectl.Transport.{Method, get, post, patch, delete, panel, ApiDispatcherRequest}

pub data PasskeyBody (Credential : Type 0) : Type 0 where
  finished : (state : String) → Credential → PasskeyBody Credential
  labelled : (label : String) → PasskeyBody Credential

module _ {Credential : Type 0} where
  abbrev request :
      Method
      → String
      → Option (PasskeyBody Credential)
      → ApiDispatcherRequest (PasskeyBody Credential)
  request method path body = record {
    scope = panel;
    method = method;
    path = path;
    query = none;
    body = body;
  }

  unfoldable pub get_passkeys : ApiDispatcherRequest (PasskeyBody Credential)
  get_passkeys = request get "/api/passkeys" none

  unfoldable pub post_passkeys_register_begin : ApiDispatcherRequest (PasskeyBody Credential)
  post_passkeys_register_begin = request post "/api/passkeys/register/begin" none

  unfoldable pub post_passkeys_register_finish :
      String → Credential → ApiDispatcherRequest (PasskeyBody Credential)
  post_passkeys_register_finish state credential =
      request post "/api/passkeys/register/finish" (some (finished state credential))

  unfoldable pub patch_passkeys_by_id :
      (encode : String → String)
      → (id label : String) → ApiDispatcherRequest (PasskeyBody Credential)
  patch_passkeys_by_id encode id label =
      request patch ("/api/passkeys/" ++ encode id) (some (labelled label))

  unfoldable pub delete_passkeys_by_id :
      (encode : String → String) → (id : String) → ApiDispatcherRequest (PasskeyBody Credential)
  delete_passkeys_by_id encode id = request delete ("/api/passkeys/" ++ encode id) none

  unfoldable pub post_passkeys_login_begin : ApiDispatcherRequest (PasskeyBody Credential)
  post_passkeys_login_begin = request post "/api/passkeys/login/begin" none

  unfoldable pub post_passkeys_login_finish :
      String → Credential → ApiDispatcherRequest (PasskeyBody Credential)
  post_passkeys_login_finish state credential =
      request post "/api/passkeys/login/finish" (some (finished state credential))
