-- ===== src/Base64Url/Tests.antt =====
-- Bytes that are written and read.
use vlessvmorectl.Base.{ℕ, ◌≡◌, refl, some, none, List, [], ◌∷◌}
use vlessvmorectl.Bytes.{codes}
use vlessvmorectl.Base64Url.{to_base64_url, from_base64_url}
use vlessvmorectl.Base.{arith}
use vlessvmorectl.Base64Url.RoundTrip.{from_base64_url-to_base64_url}

abbrev bytes : List ℕ
bytes = 251 ∷ 255 ∷ 190 ∷ 1 ∷ []

written : to_base64_url bytes ≡ codes "-_--AQ"
unfolding to_base64_url
written = refl

read : from_base64_url (codes "-_--AQ") ≡ some bytes
unfolding from_base64_url
read = refl

read_padded : from_base64_url (codes "-_--AQ==") ≡ some bytes
unfolding from_base64_url
read_padded = refl

too_short : from_base64_url (codes "A") ≡ none
unfolding from_base64_url
too_short = refl

from_base64_url-to_base64_url_example : from_base64_url (to_base64_url bytes) ≡ some bytes
from_base64_url-to_base64_url_example = from_base64_url-to_base64_url bytes (omega arith)
