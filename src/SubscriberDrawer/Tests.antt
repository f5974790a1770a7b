-- ===== src/SubscriberDrawer/Tests.antt =====
-- A subscriber whose name is typed with a blank after it, and a row of a removed account.
use vlessvmorectl.Base.{
  ◌≡◌, ◌≢◌, ◌↔◌, refl, true, false, none, some, List, [], ◌∷◌, trim, lookup, insert,
}
use vlessvmorectl.Types.{Server, SubscriberEntry, Subscriber}
use vlessvmorectl.Resolve.{
  NodeUsers, resolve_entry, find_index, server_index, index_from, node_index, user_index,
}
use vlessvmorectl.Hooks.Users.{patched_subscriber}
use vlessvmorectl.SubscriberDrawer.{
  DetailsForm, after_render, details_dirty, details_patch, gone, row_problem,
}
use vlessvmorectl.SubscriberDrawer.Save.{details_dirty-saved_iff}

abbrev ann : Subscriber
ann = record {
  id = "s1";
  name = "ann";
  note = some "";
  token = "";
  access_path = "";
  disabled = false;
  entries = [];
  created_at = "";
  updated_at = "";
}

abbrev blank : DetailsForm
blank = record { name = "ann "; note = "" }

details_dirty-saved_iff_example :
    (details_dirty
        (patched_subscriber (details_patch blank) ann)
        (after_render ann (patched_subscriber (details_patch blank) ann) blank)
      ≡ true)
    ↔ ((trim blank.name ≡ ann.name) × (ann.note ≡ some "") × (blank.name ≢ ann.name))
details_dirty-saved_iff_example = details_dirty-saved_iff ann blank

abbrev nl : Server
nl = record { id = "nl"; url = "https://nl" }

abbrev nodes : List NodeUsers
nodes = record { server = nl; users = some []; failure = none } ∷ []

abbrev entry : SubscriberEntry
entry = record {
  id = "e1";
  server_id = "nl";
  vless_user_id = "u1";
  label = none;
  added_at = "";
  server_configured = true;
}

row_gone : row_problem (resolve_entry (nl ∷ []) nodes entry) ≡ some gone
unfolding row_problem resolve_entry find_index server_index lookup insert index_from node_index
    user_index
row_gone = refl

still_dirty :
    details_dirty
      (patched_subscriber (details_patch blank) ann)
      (after_render ann (patched_subscriber (details_patch blank) ann) blank)
    ≡ true
unfolding details_dirty after_render details_patch patched_subscriber trim
still_dirty = refl
