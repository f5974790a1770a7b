-- ===== src/Keys/Ownership.antt =====
-- What an invalidation of web/src/queries/keys.ts reaches.
use vlessvmorectl.Base.{String, ◌≡◌, ◌↔◌, true, Option, none, some, arith, eq_iff}
use vlessvmorectl.Keys.{
  QueryKey, session, server, server_info, server_status, tokens, users, user, user_link, user_usage,
  parts, is_prefix,
}

-- The node that a key's data comes from.
abbrev pub owner : QueryKey → Option String
owner (server s) = some s
owner (server_info s) = some s
owner (server_status s) = some s
owner (tokens s) = some s
owner (users s) = some s
owner (user s u) = some s
owner (user_link s u) = some s
owner (user_usage s u f b) = some s
owner _ = none

-- The user list that a key's data is part of.
abbrev pub list_owner : QueryKey → Option String
list_owner (users s) = some s
list_owner (user s u) = some s
list_owner (user_link s u) = some s
list_owner (user_usage s u f b) = some s
list_owner _ = none

-- Invalidating a node reaches exactly the keys of that node.
invalidate_server_iff :
    (s : String) (k : QueryKey)
    → (is_prefix (parts (server s)) (parts k) ≡ true) ↔ (owner k ≡ some s)
unfolding parts is_prefix
invalidate_server_iff s session = (λ h. ground arith, λ h. ground arith)
invalidate_server_iff s (server t) =
    (λ h. ground (arith, eq_iff s t), λ h. ground (arith, eq_iff s t))
invalidate_server_iff s (server_info t) =
    (λ h. ground (arith, eq_iff s t), λ h. ground (arith, eq_iff s t))
invalidate_server_iff s (server_status t) =
    (λ h. ground (arith, eq_iff s t), λ h. ground (arith, eq_iff s t))
invalidate_server_iff s (tokens t) =
    (λ h. ground (arith, eq_iff s t), λ h. ground (arith, eq_iff s t))
invalidate_server_iff s (users t) =
    (λ h. ground (arith, eq_iff s t), λ h. ground (arith, eq_iff s t))
invalidate_server_iff s (user t u) =
    (λ h. ground (arith, eq_iff s t), λ h. ground (arith, eq_iff s t))
invalidate_server_iff s (user_link t u) =
    (λ h. ground (arith, eq_iff s t), λ h. ground (arith, eq_iff s t))
invalidate_server_iff s (user_usage t u f b) =
    (λ h. ground (arith, eq_iff s t), λ h. ground (arith, eq_iff s t))
invalidate_server_iff s _ = (λ h. ground arith, λ h. ground arith)
