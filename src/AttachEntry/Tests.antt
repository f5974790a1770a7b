-- ===== src/AttachEntry/Tests.antt =====
-- Two accounts are picked, of which one is refused, and a second attempt is made.
use vlessvmorectl.Base.{
  String, ◌≡◌, refl, false, Option, none, some, [], ◌∷◌, keep, map, str_eq, if◌then◌else◌, arith,
}
use vlessvmorectl.CreateUser.{listed}
use vlessvmorectl.AttachEntry.{
  has_sep, Account, parse_key, EntryInput, Picker, toggle_pick, pick_input, submit_picks,
}
use vlessvmorectl.AttachEntry.Picks.{IsDistinct}
use vlessvmorectl.AttachEntry.Submission.{is_refused, IsLeft, submit_picks-IsLeft}
use vlessvmorectl.AttachEntry.Retry.{submit_picks-submit_picks}

abbrev two_picks : Picker
two_picks = record {
  filter = "";
  picked = "nl\0u1" ∷ "de\0u2" ∷ [];
  label = " phone ";
  failures = [];
  busy = false;
  closed = false;
}

abbrev describe : Account → String → String
describe account e = e

abbrev answer : EntryInput → Option String
answer r = if str_eq r.account.server_id "nl" then none else some "timeout"

abbrev later : EntryInput → Option String
later r = none

picked_by_toggles : toggle_pick "de\0u2" (toggle_pick "nl\0u1" []) ≡ two_picks.picked
unfolding toggle_pick
picked_by_toggles = refl

still_picked : (submit_picks describe answer two_picks).0.picked ≡ "de\0u2" ∷ []
unfolding submit_picks parse_key
still_picked = refl

distinct : IsDistinct two_picks.picked
unfolding listed
distinct = (refl, (refl, tt))

no_separator : has_sep "nl" ≡ false
unfolding has_sep
no_separator = refl

submit_picks-IsLeft_example :
    ((submit_picks describe answer two_picks).1 ≡ map (pick_input two_picks) two_picks.picked)
    × IsLeft describe answer two_picks (submit_picks describe answer two_picks).0
submit_picks-IsLeft_example =
    submit_picks-IsLeft describe answer two_picks distinct refl (omega arith)

submit_picks-submit_picks_example :
    map (λ r. r.account) (submit_picks describe later (submit_picks describe answer two_picks).0).1
    ≡ map parse_key (keep (is_refused describe answer two_picks) two_picks.picked)
submit_picks-submit_picks_example =
    submit_picks-submit_picks describe answer later two_picks distinct refl
