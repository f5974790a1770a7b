-- ===== src/UserDrawer/Connection.antt =====
-- How a rotation of the subscription address goes.
use vlessvmorectl.Base.{◌≡◌, true, false, List, [], ◌∷◌, arith}
use vlessvmorectl.UserDrawer.{
  ConnectionState, opened_connection, ConnectionEvent, press_rotate, cancel_rotate,
  confirm_rotation, rotation_done, rotation_failed, show_code, close_code, connection_step,
}

abbrev pub connection_run : List ConnectionEvent → ConnectionState → ConnectionState
connection_run [] c = c
connection_run (e ∷ events) c = connection_run events (connection_step e c)

-- While a rotation is on its way nothing asks for another, and no earlier one is reported as done.
abbrev pub IsSingle : ConnectionState → Type 0
IsSingle c = c.rotating ≡ true → (c.confirm_rotate ≡ false) × (c.rotated ≡ false)

connection_step-IsSingle :
    (e : ConnectionEvent) (c : ConnectionState) → IsSingle c → IsSingle (connection_step e c)
unfolding connection_step
connection_step-IsSingle press_rotate c h = ground (arith, h)
connection_step-IsSingle cancel_rotate c h = ground (arith, h)
connection_step-IsSingle confirm_rotation c h = ground (arith, h)
connection_step-IsSingle rotation_done c h = ground (arith, h)
connection_step-IsSingle rotation_failed c h = ground (arith, h)
connection_step-IsSingle (show_code m) c h = h
connection_step-IsSingle close_code c h = h

connection_run-IsSingle :
    (events : List ConnectionEvent) (c : ConnectionState)
    → IsSingle c
    → IsSingle (connection_run events c)
connection_run-IsSingle [] c h = h
connection_run-IsSingle (e ∷ events) c h =
    connection_run-IsSingle events (connection_step e c) (connection_step-IsSingle e c h)

-- Whatever is pressed and answered, a drawer that waits for a rotation has neither the confirmation of
-- another one open nor the notice of an earlier one on screen.
opened_connection-IsSingle :
    (events : List ConnectionEvent) → IsSingle (connection_run events opened_connection)
opened_connection-IsSingle events = connection_run-IsSingle events opened_connection (λ h. cc)
