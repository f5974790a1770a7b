-- ===== src/AccessToken/Tests.antt =====
-- Addresses of a share page.
use vlessvmorectl.Base.{◌≡◌, refl, Option, some, []}
use vlessvmorectl.Bytes.{Codes, codes}
use vlessvmorectl.AccessToken.{token_from_path}

abbrev as_written : Codes → Option Codes
as_written s = some s

link : token_from_path as_written (codes "/access/QK7M/") ≡ some (codes "QK7M")
unfolding token_from_path
link = refl

accessories : token_from_path as_written (codes "/accessories") ≡ some []
unfolding token_from_path
accessories = refl

truncated : token_from_path as_written (codes "/access") ≡ some []
unfolding token_from_path
truncated = refl
