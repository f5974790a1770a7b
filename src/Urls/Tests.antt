-- ===== src/Urls/Tests.antt =====
-- The address of a request for a user's traffic, over addresses that are printed and read.
use vlessvmorectl.Base.{ℕ, String, ◌≡◌, refl, none, some, [], ◌∷◌, lookup, insert}
use vlessvmorectl.Types.{Server}
use vlessvmorectl.Transport.{text, number, Query}
use vlessvmorectl.Urls.{target_url, node_url, set_selected}
use vlessvmorectl.Urls.Plain.{Address, read, print, plain_urls}
use vlessvmorectl.Urls.Target.{node_url-target}

abbrev in_words : ℕ → String
in_words n = "1000"

abbrev nl : Server
nl = record { id = "nl"; url = "https://nl" }

abbrev usage_query : Query
usage_query = ("from", some (number 1000)) ∷ ("bucket", some (text "hour")) ∷ ("to", none) ∷ []

abbrev usage_fetch : Address
unfolding node_url
usage_fetch = node_url plain_urls in_words "https://panel" nl "/api/users" (some usage_query)

-- The proxy finds the parameters of the query in the text that it is handed.
handed_over :
    (target : String) × (lookup "url" usage_fetch.1 ≡ some target)
    × (read target "https://panel"
        ≡ ("https://nl/api/users", ("from", "1000") ∷ ("bucket", "hour") ∷ []))
unfolding node_url target_url read print lookup insert
handed_over = (_, refl, refl)

opened :
    set_selected plain_urls (some "u1") ("/servers/nl", []) ≡ ("/servers/nl", ("user", "u1") ∷ [])
unfolding set_selected insert
opened = refl

node_url-target_example :
    (target : String) × (usage_fetch.0 ≡ "https://panel/api/proxy")
    × (lookup "url" usage_fetch.1 ≡ some target)
    × ((read target "https://panel").0 ≡ "https://nl/api/users")
    × (lookup "bucket" (read target "https://panel").1 ≡ some "hour")
unfolding node_url read lookup
node_url-target_example =
    node_url-target plain_urls in_words "https://panel" nl "/api/users" usage_query "bucket"
      "https://panel"
