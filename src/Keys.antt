-- ===== src/Keys.antt =====
-- web/src/queries/keys.ts: the keys of the query cache. A `QueryKey` names the factory and its
-- arguments, and `parts` is the array that the factory builds.
pub mod Ownership
mod Tests
use vlessvmorectl.Base.{ℕ, String, Bool, true, false, ◌&&◌, List, [], ◌∷◌, str_eq, ◌==◌}
use vlessvmorectl.Range.{Bucket, hour, day}

pub data QueryKey : Type 0 where
  session servers subscribers passkeys : QueryKey
  subscriber : String → QueryKey
  server server_info server_status tokens users : String → QueryKey
  user user_link : String → String → QueryKey
  user_usage : String → String → (from_unix : ℕ) → Bucket → QueryKey

-- an element of a key
pub data Part : Type 0 where
  word : String → Part
  number : ℕ → Part

abbrev pub bucket_word : Bucket → String
bucket_word hour = "hour"
bucket_word day = "day"

unfoldable pub parts : QueryKey → List Part
parts session = word "session" ∷ []
parts servers = word "servers" ∷ []
parts subscribers = word "subscribers" ∷ []
parts passkeys = word "passkeys" ∷ []
parts (subscriber i) = word "subscribers" ∷ word i ∷ []
parts (server s) = word "server" ∷ word s ∷ []
parts (server_info s) = word "server" ∷ word s ∷ word "info" ∷ []
parts (server_status s) = word "server" ∷ word s ∷ word "status" ∷ []
parts (tokens s) = word "server" ∷ word s ∷ word "tokens" ∷ []
parts (users s) = word "server" ∷ word s ∷ word "users" ∷ []
parts (user s u) = word "server" ∷ word s ∷ word "users" ∷ word u ∷ []
parts (user_link s u) = word "server" ∷ word s ∷ word "users" ∷ word u ∷ word "link" ∷ []
parts (user_usage s u from_unix b) =
    word "server"
    ∷ word s
    ∷ word "users"
    ∷ word u
    ∷ word "usage"
    ∷ number from_unix
    ∷ word (bucket_word b)
    ∷ []

unfoldable pub same_part : Part → Part → Bool
same_part (word a) (word b) = str_eq a b
same_part (number a) (number b) = a == b
same_part _ _ = false

-- How the query client matches a key against the one that it is told to invalidate: as a prefix.
unfoldable pub is_prefix : List Part → List Part → Bool
unfolding same_part
is_prefix [] ys = true
is_prefix (x ∷ xs) [] = false
is_prefix (x ∷ xs) (y ∷ ys) = same_part x y && is_prefix xs ys
