-- ===== src/AccessPage.antt =====
-- web/src/access/AccessPage.tsx and web/src/access/fetchAccess.ts: what the share page shows while it
-- asks for its data. A request is known by a number; `Data` is what an answer holds, `read` the
-- reading of its body, which throws (`none`) where it is no JSON.
pub mod Requests
mod Tests
use vlessvmorectl.Base.{
  ℕ, ◌+◌, String, Bool, true, false, not, Option, none, some, List, [], ◌∷◌, keep, ◌==◌, truthy,
  ◌≡◌, ◌⊎◌, inl, inr, if◌then◌else◌,
}
use vlessvmorectl.Json.{Json}
use vlessvmorectl.Errors.{
  VlessFailure, not_found, refused, aborted, unreachable, Response, classify,
}
use vlessvmorectl.Dispatcher.{is_ok}

-- What the request comes to: an answer, or an error with its text.
pub data AccessFetched : Type 0 where
  answered : Response → AccessFetched
  failed : (text : String) → AccessFetched

-- What a rejected promise holds: a failure of the call, or another error.
pub data AccessError : Type 0 where
  vless : VlessFailure → AccessError
  other : AccessError

module _ {Data : Type 0} (parse_json : String → Option Json) (read : String → Option Data) where
  -- `fetchAccess` after its `fetch`; `is_aborted` is `signal?.aborted`.
  unfoldable pub fetch_access : (is_aborted : Bool) → AccessFetched → Data ⊎ AccessError
  fetch_access is_aborted (failed text) =
      inr (vless (if is_aborted then aborted else unreachable "offline" text))
  fetch_access is_aborted (answered res) =
      if is_ok res
      then elim (read res.body) [ none ↦ inr other | some d ↦ inl d ]
      else inr (vless (classify parse_json res))

pub data AccessState (Data : Type 0) : Type 0 where
  loading incomplete : AccessState Data
  loaded : Data → AccessState Data
  broken : Option VlessFailure → AccessState Data

-- `waiting` holds the requests that can still change the page.
pub record AccessPage (Data : Type 0) : Type 0 where
  pub state : AccessState Data
  pub fetched_at : ℕ
  pub waiting : List ℕ
  pub fresh : ℕ

unfoldable pub forget : ℕ → List ℕ → List ℕ
forget k waiting = keep (λ j. not (j == k)) waiting

module _ {Data : Type 0} where
  abbrev pub opened_page : AccessPage Data
  opened_page = record { state = loading; fetched_at = 0; waiting = []; fresh = 0 }

  -- `load`
  unfoldable pub load : (token : String) → AccessPage Data → AccessPage Data
  load token p =
      if truthy token
      then record p { state = loading; waiting = p.fresh ∷ p.waiting; fresh = p.fresh + 1 }
      else record p { state = incomplete }

  -- The handlers of the promise of `fetchAccess`
  unfoldable pub on_data : (now : ℕ) → Data → AccessPage Data → AccessPage Data
  on_data now d p = record p { state = loaded d; fetched_at = now }

  unfoldable pub on_refused : AccessError → AccessPage Data → AccessPage Data
  on_refused (vless aborted) p = p
  on_refused (vless f) p = record p { state = broken (some f) }
  on_refused other p = record p { state = broken none }

  unfoldable pub on_outcome : (now k : ℕ) → Data ⊎ AccessError → AccessPage Data → AccessPage Data
  unfolding on_data on_refused forget
  on_outcome now k (inl d) p = on_data now d (record p { waiting = forget k p.waiting })
  on_outcome now k (inr e) p = on_refused e (record p { waiting = forget k p.waiting })

  -- Whether the page shows Refresh, or the Try again of an error; a dead link has none.
  unfoldable pub can_reload : AccessState Data → Bool
  can_reload loading = false
  can_reload incomplete = false
  can_reload (loaded d) = true
  can_reload (broken none) = true
  can_reload (broken (some (not_found m))) = false
  can_reload (broken (some (refused l))) = false
  can_reload (broken (some f)) = true

  -- The pages that a token's page becomes. An outcome that is no abort is that of a request that waits.
  pub data Reached (token : String) : AccessPage Data → Type 0 where
    appeared : Reached token (load token opened_page)
    pressed :
        {p : AccessPage Data}
        → can_reload p.state ≡ true
        → Reached token p
        → Reached token (load token p)
    settled :
        {p : AccessPage Data} (now k : ℕ) (rest : List ℕ) (outcome : Data ⊎ AccessError)
        → p.waiting ≡ k ∷ rest
        → (outcome ≡ inr (vless aborted) → ⊥)
        → Reached token p
        → Reached token (on_outcome now k outcome p)
