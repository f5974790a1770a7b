-- ===== src/Errors/Classify.antt =====
-- How `classify` of web/src/api/errors.ts reads a response: the proxy's marker comes first, and the
-- content type tells a rejected token from a missing record.
use vlessvmorectl.Base.{
  ℕ, String, ◌≡◌, refl, ◌≢◌, ◌↔◌, true, false, Option, none, some, arith, trim, truthy, eq_iff,
}
use vlessvmorectl.Json.{Json, property, readable, text_of}
use vlessvmorectl.Errors.{
  Response, refused, bad_token, unreachable, is_json, is_marked, stdlib_not_found, unreachable_of,
  classify, message, describe_failure,
}

unreachable_of-cases :
    (raw : String) (o : Option Json)
    → (r : String) × (d : String) × (unreachable_of raw o ≡ unreachable r d)
unfolding unreachable_of
unreachable_of-cases raw none = (_, _, refl)
unreachable_of-cases raw (some v) = (_, _, refl)

module _ (parse_json : String → Option Json) where
  -- A response becomes "unreachable" exactly when it carries the proxy's own marker, whatever its
  -- status and its body.
  pub classify-unreachable_iff :
      (res : Response)
      → (is_marked res ≡ true)
        ↔ ((r : String) × (d : String) × (classify parse_json res ≡ unreachable r d))
  unfolding classify
  classify-unreachable_iff res = (
    λ h.
        let (r, d, e) = unreachable_of-cases res.body (readable (parse_json res.body)) in
        (r, d, rw h e),
    λ h. ground arith,
  )

  -- A response becomes "refused" with the verdict "bad token" exactly when it is unmarked, has the
  -- status 404, is not JSON, and its trimmed body is the text of Go's own 404 page.
  pub classify-bad_token_iff :
      (res : Response)
      → (classify parse_json res ≡ refused bad_token) ↔ (
          (is_marked res ≡ false)
          × (res.status ≡ 404)
          × (is_json res ≡ false)
          × (trim res.body ≡ stdlib_not_found))
  unfolding classify
  classify-bad_token_iff res = (
    λ h. ground (arith, eq_iff (trim res.body) stdlib_not_found),
    λ h. ground (arith, eq_iff (trim res.body) stdlib_not_found),
  )

  -- What `describe_failure` says of an unmarked response whose JSON body has an "error" text that
  -- is not empty is that text, for every status but 401, which the panel's own backend sends.
  pub describe_failure-classify :
      (decimal : ℕ → String) (res : Response) (v e : Json)
      → is_marked res ≡ false
      → is_json res ≡ true
      → res.status ≢ 401
      → parse_json res.body ≡ some v
      → property "error" v ≡ some e
      → truthy (text_of e) ≡ true
      → describe_failure decimal (classify parse_json res) ≡ text_of e
  unfolding classify message describe_failure
  describe_failure-classify decimal res v e m j s p q t = ground arith
