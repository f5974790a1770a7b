-- ===== src/Client/Backoff.antt =====
-- The schedule of `pollWithBackoff` and the retries of web/src/queries/client.ts.
use native.Mathlib.Nat.{pow-suc, one-le-pow, pow-le-pow_right}
use vlessvmorectl.Base.{
  ℕ, zero, suc, ◌*◌, ◌^◌, ◌≤◌, min, ◌≡◌, ◌≢◌, inr, true, false, Option, none, some, arith, String,
}
use vlessvmorectl.Json.{Json}
use vlessvmorectl.Errors.{Response, classify, is_marked, is_json}
use vlessvmorectl.Errors.Policy.{transient_and_terminal, is_terminal-classify_iff}
use vlessvmorectl.Client.{
  QueryError, vless, other, QueryState, poll_with_backoff, retry, poll_ms, poll_cap_ms,
}

module _ (base cap : ℕ) where
  -- With a base interval within the cap, every interval of a query that still polls lies between
  -- the two.
  pub poll_with_backoff_bounds :
      (q : QueryState) (d : ℕ)
      → base ≤ cap
      → poll_with_backoff base cap q ≡ some d
      → (base ≤ d) × (d ≤ cap)
  unfolding poll_with_backoff
  poll_with_backoff_bounds q d h e =
      let growth : 1 ≤ 2 ^ q.fetch_failure_count =
        one-le-pow q.fetch_failure_count 2 (omega arith) in
      let scaled : base ≤ base * 2 ^ q.fetch_failure_count = grind arith in ground arith

  -- More failures never shorten the interval, at the same error and with a base within the cap.
  pub poll_with_backoff_mono :
      (q r : QueryState) (d e : ℕ)
      → base ≤ cap
      → q.fetch_failure_count ≤ r.fetch_failure_count
      → poll_with_backoff base cap q ≡ some d
      → poll_with_backoff base cap r ≡ some e
      → d ≤ e
  unfolding poll_with_backoff
  poll_with_backoff_mono q r d e h le p s =
      let powers : 2 ^ q.fetch_failure_count ≤ 2 ^ r.fetch_failure_count =
        pow-le-pow_right (omega arith) le in
      let growth : 1 ≤ 2 ^ r.fetch_failure_count =
        one-le-pow r.fetch_failure_count 2 (omega arith) in
      let floor : base ≤ base * 2 ^ r.fetch_failure_count = grind arith in
      let scaled : base * 2 ^ q.fetch_failure_count ≤ base * 2 ^ r.fetch_failure_count =
        grind arith in
      ground arith

  scaled-suc : (n : ℕ) → base * 2 ^ suc n ≡ 2 * (base * 2 ^ n)
  scaled-suc n = rw pow-suc (omega arith)

  -- One more failure doubles the interval or reaches the cap, at the same error and with a base
  -- within the cap.
  pub poll_with_backoff_step :
      (error : Option QueryError) (n d e : ℕ)
      → base ≤ cap
      → poll_with_backoff base cap (record { error = error; fetch_failure_count = n }) ≡ some d
      → poll_with_backoff base cap (record { error = error; fetch_failure_count = suc n }) ≡ some e
      → e ≡ min (2 * d) cap
  unfolding poll_with_backoff
  poll_with_backoff_step error zero d e h p s = ground (arith, scaled-suc 0)
  poll_with_backoff_step error (suc n) d e h p s = ground (arith, scaled-suc n, scaled-suc (suc n))

-- With the shipped base and cap, a query that still polls does so at the cap after four failures
-- or more.
pub default_schedule :
    (q : QueryState) (d : ℕ)
    → 4 ≤ q.fetch_failure_count
    → poll_with_backoff poll_ms poll_cap_ms q ≡ some d
    → d ≡ poll_cap_ms
unfolding poll_with_backoff
default_schedule q d h e =
    let growth : 2 ^ 4 ≤ 2 ^ q.fetch_failure_count = pow-le-pow_right (omega arith) h in
    ground arith

module _ (parse_json : String → Option Json) (res : Response) (base cap failures count : ℕ) where
  -- After a response of a node that rejected the panel's token (unmarked, status 404, not JSON) a
  -- query is neither polled nor retried, whatever its counts of failures and retries.
  pub rejected_token_stops :
      is_marked res ≡ false
      → res.status ≡ 404
      → is_json res ≡ false
      → (poll_with_backoff base cap (record {
        error = some (vless (classify parse_json res));
        fetch_failure_count = failures;
      })
          ≡ none)
        × (retry count (vless (classify parse_json res)) ≡ false)
  unfolding poll_with_backoff retry
  rejected_token_stops m s j = ground (
    arith,
    (is_terminal-classify_iff parse_json res).1 (m, inr (inr (s, j))),
    transient_and_terminal (classify parse_json res),
  )

-- A query is retried at most once for a failure, and never where its polling has ended.
pub retry-poll_with_backoff :
    (base cap count : ℕ) (q : QueryState) (e : QueryError)
    → q.error ≡ some e
    → retry count e ≡ true
    → (count ≡ 0) × (poll_with_backoff base cap q ≢ none)
unfolding poll_with_backoff retry
retry-poll_with_backoff base cap count q other s r = cc
retry-poll_with_backoff base cap count q (vless f) s r = ground (arith, transient_and_terminal f)
