-- ===== src/ErrorState/Message.antt =====
-- The node's own words on the card of a failure.
use vlessvmorectl.Base.{ℕ, String, ◌≡◌, ◌≢◌, true, false, Option, some, truthy, arith}
use vlessvmorectl.Json.{Json, property, text_of}
use vlessvmorectl.Errors.{Response, is_json, is_marked, message, classify, describe_failure}
use vlessvmorectl.ErrorState.{explain}

-- For an unmarked response whose JSON body has an "error" text that is not empty, and whose status is
-- not 401, the card has that text as its body, which is also what `describe_failure` says.
explain-classify :
    (parse_json : String → Option Json) (decimal : ℕ → String) (context : Option String)
    (error_text : String) (res : Response) (v e : Json)
    → is_marked res ≡ false
    → is_json res ≡ true
    → res.status ≢ 401
    → parse_json res.body ≡ some v
    → property "error" v ≡ some e
    → truthy (text_of e) ≡ true
    → ((explain decimal context (some (classify parse_json res)) error_text).body ≡ text_of e)
      × (describe_failure decimal (classify parse_json res) ≡ text_of e)
unfolding classify message describe_failure explain
explain-classify parse_json decimal context error_text res v e m j s p q t =
    (ground arith, ground arith)
