-- ===== src/Keys/Tests.antt =====
-- An invalidation at concrete keys.
use vlessvmorectl.Base.{◌≡◌, refl, false}
use vlessvmorectl.Keys.{server, servers, parts, is_prefix}

other_root : is_prefix (parts (server "nl")) (parts servers) ≡ false
unfolding parts is_prefix
other_root = refl
