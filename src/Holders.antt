-- ===== src/Holders.antt =====
-- web/src/features/users/UserSubscribersSection.tsx: which subscribers hold an account, and which can
-- still be given it.
pub mod Partition
mod Tests
use vlessvmorectl.Base.{
  String, Bool, not, ◌&&◌, Option, none, some, List, [], ◌∷◌, ◌++◌, keep, any, find, str_eq,
  if◌then◌else◌,
}
use vlessvmorectl.Types.{SubscriberEntry, Subscriber}

pub record Holder : Type 0 where
  pub subscriber : Subscriber
  pub entry_id : String

-- `filter((h) => h !== null)`, one step
put_holder : Option Holder → List Holder → List Holder
put_holder none hs = hs
put_holder (some h) hs = h ∷ hs

module _ (server_id user_id : String) where
  unfoldable pub is_held_entry : SubscriberEntry → Bool
  is_held_entry e = str_eq e.server_id server_id && str_eq e.vless_user_id user_id

  -- What the `map` makes of one subscriber: null, or a holder.
  unfoldable pub holder : Subscriber → Option Holder
  unfolding is_held_entry
  holder s = elim (find is_held_entry s.entries) [
    | none ↦ none
    | some entry ↦ some (record { subscriber = s; entry_id = entry.id })
  ]

  unfoldable pub holders : List Subscriber → List Holder
  unfolding holder put_holder
  holders [] = []
  holders (s ∷ ss) = put_holder (holder s) (holders ss)

  unfoldable pub available : List Subscriber → List Subscriber
  unfolding holders
  available subscribers =
      keep (λ s. not (any (λ h. str_eq h.subscriber.id s.id) (holders subscribers))) subscribers
