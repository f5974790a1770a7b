-- ===== src/CreateUser/Tests.antt =====
-- A user is created on two nodes, one of which refuses, and a second attempt is made.
use vlessvmorectl.Base.{
  String, ◌≡◌, ◌≢◌, refl, true, false, none, some, List, [], ◌∷◌, In, inl, str_eq, if◌then◌else◌,
}
use vlessvmorectl.Types.{Server, VlessUser}
use vlessvmorectl.Resolve.{NodeUsers}
use vlessvmorectl.ReloadWatch.{empty_watch}
use vlessvmorectl.CreateUser.{Attempt, created, refused, Dialog, targets, submit}
use vlessvmorectl.CreateUser.Retry.{IsRefused, targets-submit}

abbrev nl : Server
nl = record { id = "nl"; url = "https://nl" }

abbrev de : Server
de = record { id = "de"; url = "https://de" }

abbrev alice : VlessUser
alice = record {
  id = "u1";
  name = "alice";
  uuid = "";
  enabled = true;
  quota_bytes = 0;
  expires_at = none;
  usage_reset_at = "";
  disabled_reason = none;
  sub_token = none;
  note = none;
  created_at = "";
  updated_at = "";
  usage = none;
  subscription_url = none;
  install_url = none;
}

abbrev nodes : List NodeUsers
nodes =
    record { server = nl; users = some []; failure = none }
    ∷ record { server = de; users = none; failure = none }
    ∷ []

abbrev answer : Server → Attempt String
answer s =
    if str_eq s.id "nl"
    then created (record { result = alice; reloaded = false; reload_error = none })
    else refused "timeout"

abbrev both : Dialog String
both = record { picked = "nl" ∷ "de" ∷ []; failures = []; closed = false }

abbrev germany : NodeUsers
germany = record { server = de; users = none; failure = none }

first_targets : targets nodes both.picked "alice" ≡ nodes
unfolding targets
first_targets = refl

some_target : targets nodes both.picked "alice" ≢ []
unfolding targets
some_target h = cc

next_targets :
    targets nodes
      (submit (nl ∷ de ∷ []) nodes "alice" (some 0) answer 7 (both, empty_watch)).0.picked
      "alice"
    ≡ germany ∷ []
unfolding targets submit
next_targets = refl

stays_open :
    (submit (nl ∷ de ∷ []) nodes "alice" (some 0) answer 7 (both, empty_watch)).0.closed ≡ false
unfolding targets submit
stays_open = refl

asked_again : In germany (
    targets nodes
      (submit (nl ∷ de ∷ []) nodes "alice" (some 0) answer 7 (both, empty_watch)).0.picked
      "alice")
unfolding targets submit
asked_again = inl refl

targets-submit_example : IsRefused answer (nl ∷ de ∷ []) "de"
targets-submit_example =
    targets-submit (nl ∷ de ∷ []) nodes nodes "alice" "alice" 0 answer 7 both empty_watch germany
      some_target stays_open asked_again
