-- ===== src/Session/SignIn.antt =====
-- When the login screen is shown, and how it goes away.
use vlessvmorectl.Base.{
  String, ◌∙◌, ◌≡◌, ◌↔◌, refl, Bool, true, false, Option, none, some, List, [], ◌∷◌, All, arith,
}
use vlessvmorectl.Json.{Json}
use vlessvmorectl.Errors.{Response, classify, is_marked}
use vlessvmorectl.Client.{QueryError, vless}
use vlessvmorectl.Boundary.{threw, rendered, retried}
use vlessvmorectl.Boundary.{component_did_update}
use vlessvmorectl.Boundary.Latch.{did_update_same}
use vlessvmorectl.Session.{
  NoKey, never_same, AppState, AppEvent, happened, identity_changed, app_run, app_step, Screen,
  authenticated, login, error_card, fallback, screen,
}

abbrev pub is_login : Screen → Bool
is_login authenticated = false
is_login (login no_admins passkeys_enabled) = true
is_login (error_card error) = false

-- The answer that the session query failed on brings up the login screen exactly when it is unmarked and
-- has the status 401.
pub fallback-classify_iff :
    (parse_json : String → Option Json) (res : Response)
    → (is_login (fallback (vless (classify parse_json res))) ≡ true)
      ↔ ((is_marked res ≡ false) × (res.status ≡ 401))
unfolding fallback classify
fallback-classify_iff parse_json res = (λ h. ground arith, λ h. ground arith)

-- Neither an error nor a press of Retry nor a change of identity
abbrev pub IsRender : AppEvent → Type 0
IsRender (happened (threw e)) = ⊥
IsRender (happened (rendered keys)) = keys ≡ []
IsRender (happened retried) = ⊥
IsRender identity_changed = ⊥

never_self : (k : NoKey) → never_same k k ≡ true
never_self k = absurd k

shown_error : (a : AppState) (e : QueryError) → a.boundary.error ≡ some e → screen a ≡ fallback e
unfolding screen
shown_error a e h = ground (arith, h)

shown_routes : (a : AppState) → a.boundary.error ≡ none → screen a ≡ authenticated
unfolding screen
shown_routes a h = ground (arith, h)

error-app_run :
    (es : List AppEvent) (a : AppState)
    → All IsRender es
    → a.boundary.prev_keys ≡ []
    → (app_run es a).boundary.error ≡ a.boundary.error
unfolding app_run app_step
error-app_run [] a q p = refl
error-app_run (happened (threw e) ∷ es) a (u, q) p = absurd u
error-app_run (happened (rendered keys) ∷ es) a (u, q) p =
    let b = component_did_update never_same keys a.boundary in
    let (e, k, r) = did_update_same never_same never_self [] keys a.boundary p u in
    error-app_run es (record a { boundary = b }) q k ∙ e
error-app_run (happened retried ∷ es) a (u, q) p = absurd u
error-app_run (identity_changed ∷ es) a (u, q) p = absurd u

-- However often the panel is rendered, it keeps the screen of an error that was thrown; after a change
-- of identity it shows the routes, until something is thrown again.
pub screen-app_run :
    (es : List AppEvent) (a : AppState) (error : QueryError)
    → All IsRender es
    → a.boundary.prev_keys ≡ []
    → (screen (app_run (happened (threw error) ∷ es) a) ≡ fallback error)
      × (screen (app_run (identity_changed ∷ es) a) ≡ authenticated)
unfolding app_run app_step
screen-app_run es a error q p = (
  shown_error (app_run es (app_step (happened (threw error)) a)) error
      (error-app_run es (app_step (happened (threw error)) a) q p),
  shown_routes (app_run es (app_step identity_changed a))
      (error-app_run es (app_step identity_changed a) q refl),
)
