-- ===== src/AttachEntry.antt =====
-- web/src/features/subscribers/AttachEntryDialog.tsx: which accounts are picked, and what a submission
-- leaves. `E` is the type of what a request throws; `describe` stands for the text of a failure,
-- `nameOf` with `attachMessage`. The requests of one submission go out one after the other, about
-- different accounts, so an answer depends on the account and its label only.
pub mod Keys
pub mod Picks
pub mod Submission
pub mod Retry
mod Tests
use Prim.Native.Char.{code, nul}
use Prim.Native.String.{◌++◌ as ◌+++◌}
use vlessvmorectl.Base.{
  ℕ, String, Bool, true, false, not, ◌||◌, Option, none, some, List, [], ◌∷◌, ◌++◌, map, keep, any,
  length, str_eq, trim, ◌==◌, if◌then◌else◌,
}
use vlessvmorectl.CreateUser.{listed}

abbrev pub sep : String
sep = String.◌∷◌ nul String.[]

unfoldable pub pick_key : (server_id user_id : String) → String
pick_key server_id user_id = server_id +++ (sep +++ user_id)

abbrev is_sep : ℕ → Bool
is_sep c = c == 0

-- `k.indexOf(SEP)` is not -1
unfoldable pub has_sep : String → Bool
has_sep String.[] = false
has_sep (String.◌∷◌ c s) = is_sep (code c) || has_sep s

-- `k.slice(0, i)` and `k.slice(i + 1)` for the index of the first separator
unfoldable pub before_sep : String → String
before_sep String.[] = ""
before_sep (String.◌∷◌ c s) =
    let rest = String.◌∷◌ c (before_sep s) in if is_sep (code c) then "" else rest

unfoldable pub after_sep : String → String
after_sep String.[] = ""
after_sep (String.◌∷◌ c s) = let rest = after_sep s in if is_sep (code c) then s else rest

-- `k.slice(0, -1)`
unfoldable pub drop_last : String → String
drop_last String.[] = ""
drop_last (String.◌∷◌ c String.[]) = ""
drop_last (String.◌∷◌ c (String.◌∷◌ d s)) = String.◌∷◌ c (drop_last (String.◌∷◌ d s))

pub record Account : Type 0 where
  pub server_id : String
  pub user_id : String

unfoldable pub parse_key : String → Account
unfolding has_sep before_sep after_sep drop_last
parse_key k =
    if has_sep k
    then record { server_id = before_sep k; user_id = after_sep k }
    else record { server_id = drop_last k; user_id = k }

-- The body of a request to attach an account.
pub record EntryInput : Type 0 where
  pub account : Account
  pub label : String

-- The state of the dialog; `closed` is that `onClose` was called.
pub record Picker : Type 0 where
  pub filter : String
  pub picked : List String
  pub label : String
  pub failures : List String
  pub busy : Bool
  pub closed : Bool

-- A `Set` of keys is a list in the order of insertion.
unfoldable pub toggle_pick : String → List String → List String
unfolding listed
toggle_pick k prev = if listed k prev then keep (λ i. not (str_eq i k)) prev else prev ++ k ∷ []

unfoldable pub reset_picker : Picker → Picker
reset_picker d = record d { picked = []; label = ""; filter = ""; failures = [] }

-- What a submission asks for one pick.
unfoldable pub pick_input : Picker → String → EntryInput
unfolding parse_key
pick_input d k = record {
  account = parse_key k;
  label = if length d.picked == 1 then trim d.label else "";
}

-- What the loop of `submit` has gathered: `failed`, `stillPicked`, and the requests so far.
pub record Attempts : Type 0 where
  pub requests : List EntryInput
  pub failed : List String
  pub still_picked : List String

-- `stillPicked.add(k)`
unfoldable pub add_pick : String → List String → List String
unfolding listed
add_pick k s = if listed k s then s else s ++ k ∷ []

-- What the end of `submit` does with the failures.
unfoldable pub finish_submit : Attempts → List String → Picker → Picker
unfolding reset_picker
finish_submit t [] d = record (reset_picker d) { busy = false; closed = true }
finish_submit t (f ∷ fs) d = record d { busy = false; picked = t.still_picked; failures = f ∷ fs }

module _ {E : Type 0} (describe : Account → E → String) where
  -- one round of the loop: the request, and its `catch`
  unfoldable pub attach_one : (EntryInput → Option E) → Picker → String → Attempts → Attempts
  unfolding pick_input add_pick
  attach_one attach d k t =
      let requests = t.requests ++ pick_input d k ∷ [] in
      elim (attach (pick_input d k)) [
        | none ↦ record t { requests = requests }
        | some e ↦ record {
          requests = requests;
          failed = t.failed ++ describe (parse_key k) e ∷ [];
          still_picked = add_pick k t.still_picked;
        }
      ]

  unfoldable pub attach_all : (EntryInput → Option E) → Picker → List String → Attempts → Attempts
  unfolding attach_one
  attach_all attach d [] t = t
  attach_all attach d (k ∷ ks) t = attach_all attach d ks (attach_one attach d k t)

  -- `submit`, with the requests that it sends
  unfoldable pub submit_picks : (EntryInput → Option E) → Picker → Picker × List EntryInput
  unfolding attach_all finish_submit
  submit_picks attach d =
      let t =
        attach_all attach d d.picked (record { requests = []; failed = []; still_picked = [] }) in
      if length d.picked == 0 || d.busy then (d, []) else (finish_submit t t.failed d, t.requests)
