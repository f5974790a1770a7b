-- ===== src/AccountForms.antt =====
-- web/src/routes/AccountPage.tsx: the forms for the username and the password. `Error` is what a
-- rejected request throws; a mutation keeps its error until it is started again.
pub mod Password
mod Tests
use vlessvmorectl.Base.{
  String, Bool, true, false, not, ◌&&◌, ◌||◌, Option, none, some, List, [], ◌∷◌, ◌++◌, str_eq, trim,
  truthy, if◌then◌else◌,
}

-- The part of a mutation that a form reads
pub record Change (Error : Type 0) : Type 0 where
  pub is_pending : Bool
  pub error : Option Error

pub record PasswordForm (Error : Type 0) : Type 0 where
  pub current_password : String
  pub new_password : String
  pub repeated_password : String
  pub done : Bool
  pub change : Change Error

pub data Field : Type 0 where
  current new repeated : Field

-- What is sent for a change of password
pub record PasswordChange : Type 0 where
  pub current_password : String
  pub new_password : String

-- The lines under a form: the error, or the news that it worked.
pub data Note (Error : Type 0) : Type 0 where
  failed : Error → Note Error
  worked mismatched silent : Note Error

pub data PasswordEvent (Error : Type 0) : Type 0 where
  typed : Field → String → PasswordEvent Error
  pressed : PasswordEvent Error
  settled : Option Error → PasswordEvent Error

module _ {Error : Type 0} where
  unfoldable pub fresh_form : PasswordForm Error
  fresh_form = record {
    current_password = "";
    new_password = "";
    repeated_password = "";
    done = false;
    change = record { is_pending = false; error = none };
  }

  unfoldable pub mismatch : PasswordForm Error → Bool
  mismatch f = truthy f.repeated_password && not (str_eq f.new_password f.repeated_password)

  unfoldable pub ready : PasswordForm Error → Bool
  ready f =
      truthy f.current_password
      && truthy f.new_password
      && str_eq f.new_password f.repeated_password

  -- The `onChange` of a field
  unfoldable pub type_in : Field → String → PasswordForm Error → PasswordForm Error
  type_in current text f = record f { current_password = text }
  type_in new text f = record f { new_password = text; done = false }
  type_in repeated text f = record f { repeated_password = text }

  -- `onSubmit`, which the button admits only while `ready` and not pending, and what it sends
  unfoldable pub submit_password : PasswordForm Error → PasswordForm Error × Option PasswordChange
  unfolding ready
  submit_password f = if f.change.is_pending || not (ready f) then (f, none) else (
    record f { done = false; change = record { is_pending = true; error = none } },
    some (record { current_password = f.current_password; new_password = f.new_password }),
  )

  -- What the request comes to
  unfoldable pub settle_password : Option Error → PasswordForm Error → PasswordForm Error
  settle_password none f = record f {
    current_password = "";
    new_password = "";
    repeated_password = "";
    done = true;
    change = record { is_pending = false; error = none };
  }
  settle_password (some e) f = record f { change = record { is_pending = false; error = some e } }

  -- `FormNote`
  unfoldable pub form_note : (error : Option Error) → (done : Bool) → Note Error
  form_note (some e) done = failed e
  form_note none done = if done then worked else silent

  unfoldable pub password_note : PasswordForm Error → Note Error
  unfolding mismatch form_note
  password_note f = if mismatch f then mismatched else form_note f.change.error f.done

  -- One event, with what it sends. Nothing settles while nothing is pending.
  unfoldable pub password_step :
      PasswordEvent Error → PasswordForm Error → PasswordForm Error × List PasswordChange
  unfolding type_in submit_password settle_password
  password_step (typed field text) f = (type_in field text f, [])
  password_step pressed f =
      let (f', sent) = submit_password f in (f', elim sent [ none ↦ [] | some c ↦ c ∷ [] ])
  password_step (settled outcome) f =
      (if f.change.is_pending then settle_password outcome f else f, [])

  -- A run of events, with all that it sends
  unfoldable pub password_run :
      List (PasswordEvent Error) → PasswordForm Error → PasswordForm Error × List PasswordChange
  unfolding password_step
  password_run [] f = (f, [])
  password_run (e ∷ es) f =
      let (f', sent) = password_step e f in
      let (f'', more) = password_run es f' in (f'', sent ++ more)

-- The form for the username
pub record UsernameForm (Error : Type 0) : Type 0 where
  pub username : String
  pub done : Bool
  pub change : Change Error

module _ {Error : Type 0} (current : String) where
  unfoldable pub username_disabled : UsernameForm Error → Bool
  username_disabled f =
      f.change.is_pending || str_eq (trim f.username) current || not (truthy (trim f.username))

  unfoldable pub submit_username : UsernameForm Error → UsernameForm Error × Option String
  unfolding username_disabled
  submit_username f = if username_disabled f then (f, none) else (
    record f { done = false; change = record { is_pending = true; error = none } },
    some (trim f.username),
  )
