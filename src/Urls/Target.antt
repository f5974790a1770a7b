-- ===== src/Urls/Target.antt =====
-- Where the proxy sends a request, and which drawer an address opens.
use vlessvmorectl.Base.{
  ℕ, String, ◌≡◌, ◌≢◌, refl, true, false, Option, none, some, [], ◌∷◌, str_eq, eq_iff, arith, ◌∙◌,
  sym, ap, subst, inl, inr, Bool-cases, if◌then◌else◌,
}
use vlessvmorectl.Types.{Server}
use vlessvmorectl.Transport.{Query}
use vlessvmorectl.Urls.{
  UrlApi, value_text, put_param, put_params, with_query_of, target_url, node_url, set_selected,
  selected,
}

false-ne-true : false ≢ true
false-ne-true h = cc

module _ (api : UrlApi) (decimal : ℕ → String) where
  open api use {Url, parse_url, to_string, get_param, set_param}

  -- The last value that a query has for a key, where it has one
  abbrev pub last_value : String → Query → Option String → Option String
  last_value k [] found = found
  last_value k ((j, none) ∷ q) found = last_value k q found
  last_value k ((j, some v) ∷ q) found =
      last_value k q (if str_eq k j then some (value_text api decimal v) else found)

  get-set_if :
      (k j v : String) (u : Url)
      → get_param k (set_param j v u) ≡ (if str_eq k j then some v else get_param k u)
  get-set_if k j v u = elim (Bool-cases (str_eq k j)) [
    | inl e ↦
        rw e (
          subst (λ i. get_param k (set_param i v u) ≡ some v) ((eq_iff k j).0 e)
            (api.get-set k v u))
    | inr e ↦ rw e (api.get-set_other j k v u (λ h. false-ne-true (sym e ∙ (eq_iff k j).1 h)))
  ]

  get-put_params :
      (k : String) (q : Query) (u : Url)
      → get_param k (put_params api decimal q u) ≡ last_value k q (get_param k u)
  unfolding put_params put_param
  get-put_params k [] u = refl
  get-put_params k ((j, none) ∷ q) u = get-put_params k q u
  get-put_params k ((j, some v) ∷ q) u =
      get-put_params k q (set_param j (value_text api decimal v) u)
      ∙ ap (last_value k q) (get-set_if k j (value_text api decimal v) u)

  address-put_params :
      (q : Query) (u : Url) → api.address (put_params api decimal q u) ≡ api.address u
  unfolding put_params put_param
  address-put_params [] u = refl
  address-put_params ((j, none) ∷ q) u = address-put_params q u
  address-put_params ((j, some v) ∷ q) u =
      address-put_params q (set_param j (value_text api decimal v) u)
      ∙ api.address-set j (value_text api decimal v) u

  -- What a call asks of a node reaches the proxy whole. The request goes to the address of the proxy
  -- under the panel's origin, and its parameter `url` is a text that, parsed again against any base,
  -- has the address of the path on the node and, for every key, the last value that the query has
  -- for it, or what the path says where the query says nothing.
  pub node_url-target :
      (origin : String) (server : Server) (path : String) (q : Query) (k base : String)
      → (target : String) × (api.address (node_url api decimal origin server path (some q))
          ≡ api.address (parse_url "/api/proxy" origin))
        × (get_param "url" (node_url api decimal origin server path (some q)) ≡ some target)
        × (api.address (parse_url target base) ≡ api.address (parse_url path server.url))
        × (get_param k (parse_url target base)
            ≡ last_value k q (get_param k (parse_url path server.url)))
  unfolding node_url target_url with_query_of
  node_url-target origin server path q k base =
      let u = put_params api decimal q (parse_url path server.url) in
      (
        to_string u,
        api.address-set "url" (to_string u) (parse_url "/api/proxy" origin),
        api.get-set "url" (to_string u) (parse_url "/api/proxy" origin),
        api.address-printed u base ∙ address-put_params q (parse_url path server.url),
        api.get-printed k u base ∙ get-put_params k q (parse_url path server.url),
      )

module _ (api : UrlApi) where
  open api use {Url, get_param}

  -- The address of a drawer opens that drawer, that of a closed drawer none, and no other part of the
  -- address changes.
  selected-set_selected :
      (u : Url) (id k : String)
      → id ≢ ""
      → k ≢ "user"
      → (selected api (set_selected api (some id) u) ≡ some id)
        × (selected api (set_selected api none u) ≡ none)
        × (get_param k (set_selected api (some id) u) ≡ get_param k u)
        × (get_param k (set_selected api none u) ≡ get_param k u)
  unfolding selected set_selected
  selected-set_selected u id k n m =
      let full : str_eq id "" ≡ false = ground (arith, eq_iff id "") in
      (
        rw full (api.get-set "user" id u),
        api.get-delete "user" u,
        rw full (api.get-set_other "user" k id u m),
        api.get-delete_other "user" k u m,
      )
