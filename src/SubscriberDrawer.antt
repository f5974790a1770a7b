-- ===== src/SubscriberDrawer.antt =====
-- web/src/features/subscribers/SubscriberDrawer.tsx: the form of a subscriber's name and note, the switch
-- of the share link, and what a row says of its account.
pub mod Save
pub mod Rows
mod Tests
use Prim.Native.String.{◌++◌}
use vlessvmorectl.Base.{
  String, Bool, true, false, not, ◌||◌, ◌&&◌, Option, none, some, str_eq, trim, or_default, is_some,
  if◌then◌else◌,
}
use vlessvmorectl.Types.{Server, Subscriber, VlessUser, SubscriberEntry}
use vlessvmorectl.Resolve.{NodeState, ok, loading, failed, unconfigured, ResolvedEntry}
use vlessvmorectl.Format.{UserState, active, disabled, over_quota, expired, expiring}
use vlessvmorectl.Access.{Tone, Tone.ok as ok_tone, warn, danger, muted}
use vlessvmorectl.Hooks.Users.{SubscriberPatch}

-- The two `useState` of Details
pub record DetailsForm : Type 0 where
  pub name : String
  pub note : String

unfoldable pub form_of : Subscriber → DetailsForm
form_of s = record { name = s.name; note = or_default s.note "" }

abbrev pub same_note : Option String → Option String → Bool
same_note none none = true
same_note (some a) (some b) = str_eq a b
same_note _ _ = false

-- The `useEffect` after a render with another subscriber record: its dependencies are the name and
-- the note.
unfoldable pub after_render : (before now : Subscriber) → DetailsForm → DetailsForm
unfolding form_of
after_render before now form =
    if str_eq before.name now.name && same_note before.note now.note then form else form_of now

unfoldable pub details_dirty : Subscriber → DetailsForm → Bool
details_dirty s form =
    not (str_eq form.name s.name) || not (str_eq form.note (or_default s.note ""))

unfoldable pub details_disabled : (pending : Bool) → DetailsForm → Bool
details_disabled pending form = pending || str_eq (trim form.name) ""

-- What Save asks for, and the switch of the link
unfoldable pub details_patch : DetailsForm → SubscriberPatch
details_patch form = record { name = some (trim form.name); note = some form.note; disabled = none }

unfoldable pub switch_patch : Subscriber → SubscriberPatch
switch_patch s = record { name = none; note = none; disabled = some (not s.disabled) }

unfoldable pub badge_tone : UserState → Tone
badge_tone active = ok_tone
badge_tone (expiring label) = warn
badge_tone disabled = muted
badge_tone over_quota = danger
badge_tone expired = danger

pub record Strip : Type 0 where
  pub tone : Tone
  pub text : String

abbrev pub gone : Strip
gone = record { tone = danger; text = "This account no longer exists on that server." }

abbrev pub orphaned : Strip
orphaned = record {
  tone = danger;
  text =
      "This server is no longer in this panel's configuration, so it shows as unavailable on their page. Its id is derived from its URL, so changing that URL orphans the entry — detach and re-attach to fix it.";
}

abbrev pub unreached : Strip
unreached = record {
  tone = warn;
  text = "Couldn't reach this server, so this row can't show its status.";
}

-- `Problem`
unfoldable pub problem_strip : NodeState → (missing : Bool) → Option Strip
problem_strip unconfigured missing = some orphaned
problem_strip failed missing = some unreached
problem_strip ok missing = if missing then some gone else none
problem_strip loading missing = if missing then some gone else none

abbrev pub is_ok_state : NodeState → Bool
is_ok_state ok = true
is_ok_state _ = false

-- The problem that `EntryRow` shows
unfoldable pub row_problem : ResolvedEntry → Option Strip
unfolding problem_strip
row_problem r = problem_strip r.node_state (is_ok_state r.node_state && not (is_some r.user))

-- The address that the row's server links to; `encode` is `encodeURIComponent`.
unfoldable pub row_link : (encode : String → String) → ResolvedEntry → Option String
row_link encode r = elim r.server [
  | none ↦ none
  | some server ↦ some ("/servers/" ++ (server.id ++ ("?user=" ++ encode r.entry.vless_user_id)))
]
