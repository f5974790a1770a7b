-- ===== src/Dispatcher/Tests.antt =====
-- A transport that answers every node alike, and the theorems about calls over it.
use vlessvmorectl.Base.{ℕ, String, ◌≡◌, ◌↔◌, refl, Bool, true, false, ◌||◌, Option, none, some, []}
use vlessvmorectl.Json.{Json, bool}
use vlessvmorectl.Errors.{Response, aborted}
use vlessvmorectl.Transport.{
  get, node, panel, ApiDispatcherRequest, responded, cancelled, Transport,
}
use vlessvmorectl.Dispatcher.{returned, thrown, ApiDispatcher, is_ok, send, create, call}
use vlessvmorectl.Dispatcher.Calls.{IsBody, call-returned_iff}

abbrev parse_true : String → Option Json
parse_true s = some (bool true)

abbrev decimal_dot : ℕ → String
decimal_dot n = "."

abbrev whole : String → String
whole s = s

abbrev fine : Response
fine = record { status = 200; headers = []; body = "true" }

abbrev fixed : Transport String Bool
fixed = record { panel = λ m p o. cancelled; node = λ s m p o. responded fine }

abbrev plain : ApiDispatcher String Bool
plain = record { transport = fixed; signal = some false }

abbrev to_node : ApiDispatcherRequest String
to_node = record {
  scope = node (record { id = "nl"; url = "https://nl" });
  method = get;
  path = "/api/status";
  query = none;
  body = none;
}

abbrev to_panel : ApiDispatcherRequest String
to_panel = record to_node { scope = panel }

call-returned_iff_example :
    (call parse_true decimal_dot whole true plain to_node ≡ returned (some (bool true))) ↔ (
      (res : Response) × (send plain to_node ≡ responded res)
      × (is_ok res ≡ true)
      × IsBody parse_true res (some (bool true)))
call-returned_iff_example =
    call-returned_iff parse_true decimal_dot whole true plain to_node (some (bool true))

cancelled_call :
    call parse_true decimal_dot whole true plain to_panel ≡ thrown (create decimal_dot aborted none)
unfolding call send
cancelled_call = refl

abbrev whole_flag : Bool → Bool
whole_flag b = b

abbrev either : Bool → Bool → Bool
either a b = a || b

either_law : (a b : Bool) → either a b ≡ (a || b)
either_law a b = refl
