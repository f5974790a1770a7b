-- ===== src/ReloadWatch.antt =====
-- web/src/queries/reloadWatch.ts: the nodes whose last change was saved but is not live. A listener
-- is known by a number; a method that emits returns the listeners that it calls, in their order.
pub mod Store
mod Tests
use vlessvmorectl.Base.{
  ℕ, String, Bool, true, false, Option, none, some, List, [], ◌∷◌, any, keep, not, ltb, ◌==◌,
  is_some, lookup, insert, remove, if◌then◌else◌, ◌++◌, truthy,
}

pub record ReloadProblem : Type 0 where
  pub marked_at : ℕ
  pub error : String

pub record ReloadWatch : Type 0 where
  pub problems : List (String × ReloadProblem)
  pub listeners : List ℕ

abbrev pub empty_watch : ReloadWatch
empty_watch = record { problems = []; listeners = [] }

-- A `Set` keeps one copy, where it was first added.
unfoldable pub subscribe : ℕ → ReloadWatch → ReloadWatch
subscribe l w =
    if any (λ k. k == l) w.listeners then w else record w { listeners = w.listeners ++ l ∷ [] }

-- the function that `subscribe` returns
unfoldable pub unsubscribe : ℕ → ReloadWatch → ReloadWatch
unsubscribe l w = record w { listeners = keep (λ k. not (k == l)) w.listeners }

unfoldable pub get : ReloadWatch → String → Option ReloadProblem
unfolding lookup
get w server_id = lookup server_id w.problems

unfoldable pub mark : String → String → ℕ → ReloadWatch → ReloadWatch × List ℕ
unfolding insert
mark server_id error now w = (
  record w { problems = insert server_id (record { marked_at = now; error = error }) w.problems },
  w.listeners,
)

-- `if (this.problems.delete(serverId)) this.emit()`
unfoldable pub clear : String → ReloadWatch → ReloadWatch × List ℕ
unfolding lookup remove
clear server_id w =
    if is_some (lookup server_id w.problems)
    then (record w { problems = remove server_id w.problems }, w.listeners)
    else (w, [])

-- What `useReloadProblem` shows, and whether it queues `watch.clear(serverId)`.
module _ (date_parse : String → Option ℕ) where
  -- `lastReload` is after the mark: absent, empty or unreadable is not
  unfoldable pub is_superseded : Option String → ReloadProblem → Bool
  is_superseded none p = false
  is_superseded (some iso) p =
      if truthy iso
      then elim (date_parse iso) [ none ↦ false | some at ↦ ltb p.marked_at at ]
      else false

  unfoldable pub use_reload_problem :
      ReloadWatch → String → Option String → Option ReloadProblem × Bool
  unfolding get is_superseded
  use_reload_problem w server_id last_reload = elim (get w server_id) [
    | none ↦ (none, false)
    | some p ↦ if is_superseded last_reload p then (none, true) else (some p, false)
  ]
