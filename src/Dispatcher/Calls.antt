-- ===== src/Dispatcher/Calls.antt =====
-- What a call of web/src/api/dispatcher.ts comes to: an answer, or an error that says whose it is.
use vlessvmorectl.Base.{
  ℕ, String, Bool, true, false, ◌||◌, ◌≡◌, ◌≢◌, ◌↔◌, ◌⊎◌, Option, none, some, arith, truthy,
  Option-cases, inl, inr, refl, sym, subst, Bool-cases,
}
use vlessvmorectl.Json.{Json}
use vlessvmorectl.Errors.{aborted, Response, describe_failure}
use vlessvmorectl.Errors.Policy.{classify-ne-aborted}
use vlessvmorectl.Transport.{
  ApiDispatcherRequest, Fetched, responded, cancelled, broken, server_id_of,
}
use vlessvmorectl.Dispatcher.{
  VlessError, returned, thrown, ApiDispatcher, is_ok, with_signal, options, send, create, parse,
  settle, call,
}

responded-inj : {a b : Response} → responded a ≡ responded b → a ≡ b
responded-inj h = cc

abbrev pub any_aborted : {S : Type 0} → (S → Bool) → Option S → Bool
any_aborted is_aborted none = false
any_aborted is_aborted (some s) = is_aborted s

-- The body of a response that is read as a value, or as none.
abbrev pub IsBody : (String → Option Json) → Response → Option Json → Type 0
IsBody parse_json res none = (res.status ≡ 204) ⊎ (truthy res.body ≡ false)
IsBody parse_json res (some v) =
    (res.status ≢ 204) × (truthy res.body ≡ true) × (parse_json res.body ≡ some v)

module _ (parse_json : String → Option Json) (decimal : ℕ → String) (excerpt : String → String)
    (online : Bool) where
  parse-returned_iff :
      (res : Response) (id : Option String) (v : Option Json)
      → (parse parse_json decimal excerpt online res id ≡ returned v) ↔ IsBody parse_json res v
  unfolding parse
  parse-returned_iff res id none = (λ h. ground arith, λ h. ground arith)
  parse-returned_iff res id (some v) = (λ h. ground arith, λ h. ground arith)

  settle-returned_iff :
      (id : Option String) (f : Fetched) (v : Option Json)
      → (settle parse_json decimal excerpt online id f ≡ returned v)
        ↔ ((res : Response) × (f ≡ responded res) × (is_ok res ≡ true) × IsBody parse_json res v)
  unfolding settle
  settle-returned_iff id cancelled v = (λ h. cc, λ (res, p, q, r). cc)
  settle-returned_iff id (broken e) v = (λ h. cc, λ (res, p, q, r). cc)
  settle-returned_iff id (responded res) v =
      let (there, back) = parse-returned_iff res id v in
      elim (Bool-cases (is_ok res)) [
        | inl e ↦ (
          λ h. (res, refl, e, there (rw e at h)),
          λ (x, p, q, r).
              rw e (back (subst (λ y. IsBody parse_json y v) (sym (responded-inj p)) r)),
        )
        | inr e ↦ (λ h. cc (rw e at h), λ (x, p, q, r). ground arith)
      ]

  settle-aborted_iff :
      (id : Option String) (f : Fetched)
      → ((e : VlessError) × (settle parse_json decimal excerpt online id f ≡ thrown e)
          × (e.failure ≡ aborted))
        ↔ (f ≡ cancelled)
  unfolding settle parse create
  settle-aborted_iff id cancelled = (λ h. refl, λ h. (_, refl, refl))
  settle-aborted_iff id (broken x) = (λ (e, p, q). ground arith, λ h. cc)
  settle-aborted_iff id (responded res) =
      (λ (e, p, q). ground (arith, classify-ne-aborted parse_json res), λ h. cc)

  settle-names :
      (id : Option String) (f : Fetched) (e : VlessError)
      → settle parse_json decimal excerpt online id f ≡ thrown e
      → (e.server_id ≡ id) × (e.message ≡ describe_failure decimal e.failure)
  unfolding settle parse create
  settle-names id cancelled e h = ground arith
  settle-names id (broken x) e h = ground arith
  settle-names id (responded res) e h = ground arith

  module _ {B S : Type 0} (d : ApiDispatcher B S) (request : ApiDispatcherRequest B) where
    -- A call returns a value exactly when the transport answered with a status from 200 to 299 and
    -- the body is that value: none for the status 204 or an empty body, else what it parses to. No
    -- other answer is ever returned.
    pub call-returned_iff :
        (v : Option Json)
        → (call parse_json decimal excerpt online d request ≡ returned v) ↔ (
            (res : Response) × (send d request ≡ responded res)
            × (is_ok res ≡ true)
            × IsBody parse_json res v)
    unfolding call
    call-returned_iff v = settle-returned_iff (server_id_of request.scope) (send d request) v

    -- A call throws "aborted" exactly when its request was cancelled.
    pub call-aborted_iff :
        ((e : VlessError) × (call parse_json decimal excerpt online d request ≡ thrown e)
          × (e.failure ≡ aborted))
        ↔ (send d request ≡ cancelled)
    unfolding call
    call-aborted_iff = settle-aborted_iff (server_id_of request.scope) (send d request)

    -- Whatever a call throws names the server of the request, and none for the panel's own backend,
    -- and its message is the description of its failure.
    pub call-names :
        (e : VlessError)
        → call parse_json decimal excerpt online d request ≡ thrown e
        → (e.server_id ≡ server_id_of request.scope)
          × (e.message ≡ describe_failure decimal e.failure)
    unfolding call
    call-names e h = settle-names (server_id_of request.scope) (send d request) e h

-- Where a merged signal is aborted exactly when one of its two is, a dispatcher bound to a further
-- signal sends with one that is aborted exactly when its own signal or the further one is.
pub with_signal_merges :
    {B S : Type 0} (merge : S → S → S) (is_aborted : S → Bool)
    → ((a b : S) → is_aborted (merge a b) ≡ (is_aborted a || is_aborted b))
    → (signal : S) (d : ApiDispatcher B S) (request : ApiDispatcherRequest B)
    → (s : S) × ((options (with_signal merge signal d) request).signal ≡ some s)
      × (is_aborted s ≡ (any_aborted is_aborted d.signal || is_aborted signal))
unfolding with_signal options
with_signal_merges merge is_aborted law signal d request = elim (Option-cases d.signal) [
  | inl e ↦ (signal, ground arith, ground arith)
  | inr (own, e) ↦ (merge own signal, ground arith, ground (arith, law own signal))
]
