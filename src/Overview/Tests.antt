-- ===== src/Overview/Tests.antt =====
-- The card of a node with two users.
use vlessvmorectl.Base.{ℕ, String, ◌≡◌, refl, true, Option, none, some, [], ◌∷◌}
use vlessvmorectl.Types.{VlessUser}
use vlessvmorectl.Format.{Count, TimeUnit}
use vlessvmorectl.Overview.{ServerStatus, server_card}

abbrev carol : VlessUser
carol = record {
  id = "u1";
  name = "carol";
  uuid = "0000";
  enabled = true;
  quota_bytes = 1024;
  expires_at = none;
  usage_reset_at = "2026-07-01T00:00:00Z";
  disabled_reason = none;
  sub_token = none;
  note = none;
  created_at = "2026-07-01T00:00:00Z";
  updated_at = "2026-07-01T00:00:00Z";
  usage = some (record {
    up = 1;
    down = 2;
    total = 3;
    window_up = 1;
    window_down = 2;
    window_total = 3;
    quota_bytes = 1024;
    quota_remaining = 1021;
  });
  subscription_url = none;
  install_url = none;
}

abbrev dave : VlessUser
dave = record carol { id = "u2"; name = "dave"; usage = none }

abbrev node_status : ServerStatus
node_status = record {
  running = true;
  last_error = none;
  sing_box_version = some "sing-box 1.9";
  users = 2;
  active_users = 2;
}

abbrev never_parsed : String → Option ℕ
never_parsed s = none

abbrev blank_format : Count → TimeUnit → String
blank_format n unit = ""

warned :
    (server_card never_parsed blank_format 0 node_status (carol ∷ dave ∷ [])).lacks_counters ≡ true
unfolding server_card
warned = refl
