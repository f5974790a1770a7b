-- ===== src/Session.antt =====
-- web/src/App.tsx: which screen the panel shows. The session query is thrown to the outermost boundary,
-- whose reset keys are none and whose `key` is the epoch, so that a new epoch mounts a new one.
pub mod SignIn
mod Tests
use vlessvmorectl.Base.{ℕ, ◌+◌, Bool, true, false, Option, none, some, List, [], ◌∷◌, if◌then◌else◌}
use vlessvmorectl.Errors.{VlessFailure, unauthorized}
use vlessvmorectl.Client.{QueryError, vless, other}
use vlessvmorectl.Boundary.{BoundaryState, BoundaryEvent, mounted, boundary_step}

-- No reset key is ever there to be compared.
abbrev pub NoKey : Type 0
NoKey = ⊥

abbrev never_same : NoKey → NoKey → Bool
never_same k l = elim k [ ]

pub record AppState : Type 0 where
  pub epoch : ℕ
  pub boundary : BoundaryState NoKey QueryError

-- Something happens to the boundary, or `identityChanged` is called.
pub data AppEvent : Type 0 where
  happened : BoundaryEvent NoKey QueryError → AppEvent
  identity_changed : AppEvent

unfoldable pub app_step : AppEvent → AppState → AppState
unfolding boundary_step mounted
app_step (happened e) a = record a { boundary = boundary_step never_same e a.boundary }
app_step identity_changed a = record { epoch = a.epoch + 1; boundary = mounted [] }

unfoldable pub app_run : List AppEvent → AppState → AppState
unfolding app_step
app_run [] a = a
app_run (e ∷ es) a = app_run es (app_step e a)

pub data Screen : Type 0 where
  authenticated : Screen
  login : (no_admins passkeys_enabled : Bool) → Screen
  error_card : QueryError → Screen

unfoldable pub no_admins_from : QueryError → Bool
no_admins_from (vless (unauthorized no_admins passkeys_enabled)) = no_admins
no_admins_from _ = false

unfoldable pub passkeys_enabled_from : QueryError → Bool
passkeys_enabled_from (vless (unauthorized no_admins passkeys_enabled)) = passkeys_enabled
passkeys_enabled_from _ = false

abbrev pub is_unauthorized : QueryError → Bool
is_unauthorized (vless (unauthorized no_admins passkeys_enabled)) = true
is_unauthorized _ = false

-- the `fallback` of `App`
unfoldable pub fallback : QueryError → Screen
unfolding no_admins_from passkeys_enabled_from
fallback error =
    if is_unauthorized error
    then login (no_admins_from error) (passkeys_enabled_from error)
    else error_card error

unfoldable pub screen : AppState → Screen
unfolding fallback
screen a = elim a.boundary.error [ none ↦ authenticated | some error ↦ fallback error ]
