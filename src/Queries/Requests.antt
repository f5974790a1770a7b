-- ===== src/Queries/Requests.antt =====
-- Which request the data of a key in the cache answers.
use vlessvmorectl.Base.{
  String, ◌≡◌, refl, sym, ap, ◌∙◌, Option, none, some, List, [], ◌∷◌, In, str_eq, if◌then◌else◌,
}
use vlessvmorectl.Types.{Server}
use vlessvmorectl.Range.{hour, day}
use vlessvmorectl.Keys.{QueryKey, Part, word, number, parts}
use vlessvmorectl.Actions.{
  get_me, get_servers, get_server, get_status, get_tokens, get_users, get_users_by_id_link,
  get_users_by_id_usage, get_subscribers,
}
use vlessvmorectl.Actions.Passkeys.{get_passkeys}
use vlessvmorectl.Queries.{
  Asked, without_body, QueryOptions, default_options, use_server_info, use_server_status, use_users,
  use_tokens, use_passkeys, use_user_link, use_user_usage, Hook, session, servers, passkeys,
  subscribers, server_info, server_status, users, tokens, user_link, user_usage,
}

-- A reader of the arrays that the factories of `qk` build.
abbrev read_panel : String → Option QueryKey
read_panel w =
    if str_eq w "session"
    then some QueryKey.session
    else if str_eq w "servers"
    then some QueryKey.servers
    else if str_eq w "subscribers"
    then some QueryKey.subscribers
    else if str_eq w "passkeys"
    then some QueryKey.passkeys
    else none

abbrev read_node : String → String → QueryKey
read_node s w =
    if str_eq w "info"
    then QueryKey.server_info s
    else if str_eq w "status"
    then QueryKey.server_status s
    else if str_eq w "tokens"
    then QueryKey.tokens s
    else QueryKey.users s

abbrev read_key : List Part → Option QueryKey
read_key (word w ∷ []) = read_panel w
read_key (word w ∷ word i ∷ []) =
    some (if str_eq w "subscribers" then QueryKey.subscriber i else QueryKey.server i)
read_key (word w ∷ word s ∷ word v ∷ []) = some (read_node s v)
read_key (word w ∷ word s ∷ word v ∷ word u ∷ []) = some (QueryKey.user s u)
read_key (word w ∷ word s ∷ word v ∷ word u ∷ word l ∷ []) = some (QueryKey.user_link s u)
read_key (word w ∷ word s ∷ word v ∷ word u ∷ word l ∷ number from_unix ∷ word b ∷ []) =
    some (QueryKey.user_usage s u from_unix (if str_eq b "hour" then hour else day))
read_key other = none

read_key-parts : (key : QueryKey) → read_key (parts key) ≡ some key
unfolding parts
read_key-parts QueryKey.session = refl
read_key-parts QueryKey.servers = refl
read_key-parts QueryKey.subscribers = refl
read_key-parts QueryKey.passkeys = refl
read_key-parts (QueryKey.subscriber i) = refl
read_key-parts (QueryKey.server s) = refl
read_key-parts (QueryKey.server_info s) = refl
read_key-parts (QueryKey.server_status s) = refl
read_key-parts (QueryKey.tokens s) = refl
read_key-parts (QueryKey.users s) = refl
read_key-parts (QueryKey.user s u) = refl
read_key-parts (QueryKey.user_link s u) = refl
read_key-parts (QueryKey.user_usage s u from_unix hour) = refl
read_key-parts (QueryKey.user_usage s u from_unix day) = refl

some-injective : {A : Type 0} {a b : A} → some a ≡ some b → a ≡ b
some-injective h = cc

parts-injective : (j k : QueryKey) → parts j ≡ parts k → j ≡ k
parts-injective j k e = some-injective (sym (read_key-parts j) ∙ ap read_key e ∙ read_key-parts k)

module _ (encode : String → String) (server_of : String → Server) where
  -- What a key stands for; three keys are only ever roots to invalidate or patch.
  abbrev request_for : QueryKey → Option Asked
  unfolding without_body
  request_for QueryKey.session = some (without_body get_me)
  request_for QueryKey.servers = some (without_body get_servers)
  request_for QueryKey.subscribers = some (without_body get_subscribers)
  request_for QueryKey.passkeys = some (without_body (get_passkeys {Credential = Unit}))
  request_for (QueryKey.subscriber i) = none
  request_for (QueryKey.server s) = none
  request_for (QueryKey.server_info s) = some (without_body (get_server (server_of s)))
  request_for (QueryKey.server_status s) = some (without_body (get_status (server_of s)))
  request_for (QueryKey.tokens s) = some (without_body (get_tokens (server_of s)))
  request_for (QueryKey.users s) = some (without_body (get_users (server_of s)))
  request_for (QueryKey.user s u) = none
  request_for (QueryKey.user_link s u) =
      some (without_body (get_users_by_id_link encode (server_of s) u))
  request_for (QueryKey.user_usage s u from_unix b) =
      some (without_body (get_users_by_id_usage encode (server_of s) u from_unix b))

  module _ (nodes : List Server) (known : (s : Server) → In s nodes → server_of s.id ≡ s) where
    request-Hook : (q : QueryOptions) → Hook encode nodes q → request_for q.key ≡ some q.request
    unfolding use_server_info use_server_status use_users use_tokens use_user_link use_user_usage
        use_passkeys default_options
    request-Hook q session = refl
    request-Hook q servers = refl
    request-Hook q passkeys = refl
    request-Hook q subscribers = refl
    request-Hook q (server_info s m) = ap (λ t. some (without_body (get_server t))) (known s m)
    request-Hook q (server_status s m) = ap (λ t. some (without_body (get_status t))) (known s m)
    request-Hook q (users s m) = ap (λ t. some (without_body (get_users t))) (known s m)
    request-Hook q (tokens s m) = ap (λ t. some (without_body (get_tokens t))) (known s m)
    request-Hook q (user_link s u m) =
        ap (λ t. some (without_body (get_users_by_id_link encode t u))) (known s m)
    request-Hook q (user_usage s u range m) =
        ap
          (λ t. some (without_body (get_users_by_id_usage encode t u range.from_unix range.bucket)))
          (known s m)

    -- Where the ids of the known nodes tell them apart, two queries whose keys are the same array make
    -- the same request: an entry of the cache never holds the answer to another question.
    pub parts-request :
        (p q : QueryOptions)
        → Hook encode nodes p
        → Hook encode nodes q
        → parts p.key ≡ parts q.key
        → p.request ≡ q.request
    parts-request p q g h e =
        some-injective (
          sym (request-Hook p g)
          ∙ ap request_for (parts-injective p.key q.key e)
          ∙ request-Hook q h)
