-- ===== src/Actions/Tests.antt =====
-- The requests of the actions at concrete records.
use vlessvmorectl.Base.{String, ◌≡◌, refl, false}
use vlessvmorectl.Transport.{panel, delete}
use vlessvmorectl.Actions.{plain, entry_by_id, entries_of, subscriber_by_id, delete_entry}
use vlessvmorectl.Actions.Paths.{has_slash}

abbrev verbatim : String → String
verbatim s = s

delete_phone :
    delete_entry verbatim "s1" "phone" ≡ plain panel delete "/api/subscribers/s1/entries/phone"
unfolding delete_entry plain entry_by_id entries_of subscriber_by_id
delete_phone = refl

s1_free : has_slash "s1" ≡ false
unfolding has_slash
s1_free = refl
