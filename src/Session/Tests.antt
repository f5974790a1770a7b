-- ===== src/Session/Tests.antt =====
-- A session that has expired, and a sign-in.
use vlessvmorectl.Base.{String, ◌≡◌, ◌↔◌, refl, true, false, Option, none, List, [], ◌∷◌}
use vlessvmorectl.Json.{Json}
use vlessvmorectl.Errors.{Response, classify, is_marked, unauthorized}
use vlessvmorectl.Client.{QueryError, vless}
use vlessvmorectl.Boundary.{threw, rendered}
use vlessvmorectl.Session.{
  AppState, AppEvent, happened, identity_changed, app_run, authenticated, login, fallback, screen,
}
use vlessvmorectl.Session.SignIn.{is_login, fallback-classify_iff, screen-app_run}

abbrev parse_none : String → Option Json
parse_none s = none

abbrev no_session : Response
no_session = record { status = 401; headers = []; body = "" }

abbrev setup : QueryError
setup = vless (unauthorized true false)

abbrev start_state : AppState
start_state = record { epoch = 0; boundary = record { error = none; prev_keys = []; resets = 0 } }

abbrev renders : List AppEvent
renders = happened (rendered []) ∷ happened (rendered []) ∷ []

login_stays : screen (app_run (happened (threw setup) ∷ renders) start_state) ≡ login true false
unfolding screen app_run
login_stays = refl

fallback-classify_iff_example :
    (is_login (fallback (vless (classify parse_none no_session))) ≡ true)
    ↔ ((is_marked no_session ≡ false) × (no_session.status ≡ 401))
fallback-classify_iff_example = fallback-classify_iff parse_none no_session

screen-app_run_example :
    (screen (app_run (happened (threw setup) ∷ renders) start_state) ≡ fallback setup)
    × (screen (app_run (identity_changed ∷ renders) start_state) ≡ authenticated)
screen-app_run_example = screen-app_run renders start_state setup (refl, (refl, tt)) refl
