-- ===== src/Json.antt =====
-- JSON values as the web client sees them after `JSON.parse`, and the JavaScript operations on
-- them that web/src/api uses: property access, truthiness and `String(…)`. A number is kept as
-- the text that `String(…)` gives, so 0 is the number with the text "0". An object has each key
-- once, as `JSON.parse` leaves it.
use Prim.Native.String.{◌++◌}
use vlessvmorectl.Base.{
  String, Bool, true, false, not, Option, none, some, str_eq, truthy, if◌then◌else◌,
}

mutual
  pub data Json : Type 0 where
    null : Json
    bool : Bool → Json
    num : String → Json
    str : String → Json
    arr : Items → Json
    obj : Fields → Json

  pub data Items : Type 0 where
    nil : Items
    cons : Json → Items → Items

  pub data Fields : Type 0 where
    end : Fields
    field : String → Json → Fields → Fields

unfoldable pub get_field : String → Fields → Option Json
get_field k end = none
get_field k (field j v fs) = if str_eq j k then some v else get_field k fs

-- `v.k` for a value that is not null: `undefined` is `none`.
unfoldable pub property : String → Json → Option Json
unfolding get_field
property k (obj fs) = get_field k fs
property k _ = none

-- Reading a property of null throws, so a block that begins with one fails on null.
unfoldable pub readable : Option Json → Option Json
readable none = none
readable (some null) = none
readable (some v) = some v

unfoldable pub is_truthy : Json → Bool
is_truthy null = false
is_truthy (bool b) = b
is_truthy (num s) = not (str_eq s "0")
is_truthy (str s) = truthy s
is_truthy (arr _) = true
is_truthy (obj _) = true

-- `v.k` in a test: `undefined` is falsy.
unfoldable pub has_truthy : String → Json → Bool
unfolding property is_truthy
has_truthy k v = elim (property k v) [ none ↦ false | some w ↦ is_truthy w ]

-- An item of an array as `join` writes it: nothing for null.
abbrev joined : Json → String → String
joined null s = ""
joined _ s = s

-- `String(v)`: an array joins its items by commas.
unfoldable mutual
  pub text_of : Json → String
  text_of null = "null"
  text_of (bool true) = "true"
  text_of (bool false) = "false"
  text_of (num s) = s
  text_of (str s) = s
  text_of (arr nil) = ""
  text_of (arr (cons v vs)) = joined v (text_of v) ++ text_of_items vs
  text_of (obj _) = "[object Object]"

  pub text_of_items : Items → String
  text_of_items nil = ""
  text_of_items (cons v vs) = "," ++ (joined v (text_of v) ++ text_of_items vs)
