-- ===== src/Errors/Policy.antt =====
-- Which responses are worth retrying, and which end the polling: `is_transient` and `is_terminal` of
-- web/src/api/errors.ts over what `classify` makes of a response.
use vlessvmorectl.Base.{String, ◌≡◌, ◌≢◌, ◌↔◌, ◌⊎◌, true, false, ◌&&◌, Option, arith}
use vlessvmorectl.Json.{Json}
use vlessvmorectl.Errors.{
  VlessFailure, Response, is_json, is_marked, classify, is_transient, is_terminal, aborted,
}

-- No failure is both retried and final.
pub transient_and_terminal : (f : VlessFailure) → (is_transient f && is_terminal f) ≡ false
unfolding is_transient is_terminal
transient_and_terminal f = ground arith

module _ (parse_json : String → Option Json) (res : Response) where
  -- The failure of a response is final exactly when the response is unmarked and has the status
  -- 401, the status 403, or the status 404 with a body that is not JSON.
  pub is_terminal-classify_iff : (is_terminal (classify parse_json res) ≡ true) ↔ (
      (is_marked res ≡ false)
      × ((res.status ≡ 401) ⊎ (res.status ≡ 403) ⊎ ((res.status ≡ 404) × (is_json res ≡ false))))
  unfolding classify is_terminal
  is_terminal-classify_iff = (λ h. ground arith, λ h. ground arith)

  -- The failure of a response is worth a retry exactly when the response is marked by the proxy or
  -- its status is none of 400, 401, 403, 404 and 409.
  pub is_transient-classify_iff : (is_transient (classify parse_json res) ≡ true) ↔ (
      (is_marked res ≡ true)
      ⊎ ((res.status ≢ 400)
          × (res.status ≢ 401)
          × (res.status ≢ 403)
          × (res.status ≢ 404)
          × (res.status ≢ 409)))
  unfolding classify is_transient
  is_transient-classify_iff = (λ h. ground arith, λ h. ground arith)

  -- `classify` never gives "aborted": that failure comes from the caller alone.
  pub classify-ne-aborted : classify parse_json res ≢ aborted
  unfolding classify
  classify-ne-aborted h = ground arith
