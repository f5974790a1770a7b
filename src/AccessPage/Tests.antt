-- ===== src/AccessPage/Tests.antt =====
-- A share page that is opened, answered and refreshed.
use vlessvmorectl.Base.{
  ℕ, String, ◌≤◌, ◌≡◌, ◌≢◌, refl, Option, none, [], length, ◌⊎◌, inl, inr, false,
}
use vlessvmorectl.Json.{Json}
use vlessvmorectl.Errors.{aborted, unreachable}
use vlessvmorectl.AccessPage.{
  loading, AccessPage, AccessError, failed, vless, fetch_access, opened_page, load, on_outcome,
  appeared, settled,
}
use vlessvmorectl.AccessPage.Requests.{Reached-waiting}

abbrev parse_none : String → Option Json
parse_none s = none

abbrev read_none : String → Option ℕ
read_none s = none

offline :
    fetch_access parse_none read_none false (failed "no network")
    ≡ inr (vless (unreachable "offline" "no network"))
unfolding fetch_access
offline = refl

abbrev answered_page : AccessPage ℕ
unfolding load on_outcome
answered_page = on_outcome 5 0 (inl 42) (load "QK7M" opened_page)

not_aborted : ◌≡◌ {A = ℕ ⊎ AccessError} (inl 42) (inr (vless aborted)) → ⊥
not_aborted h = cc

Reached-waiting_example :
    (length answered_page.waiting ≤ 1)
    × (answered_page.state ≢ loading → answered_page.waiting ≡ [])
unfolding load on_outcome
Reached-waiting_example =
    Reached-waiting "QK7M" answered_page refl (settled 5 0 [] (inl 42) refl not_aborted appeared)
