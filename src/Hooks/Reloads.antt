-- ===== src/Hooks/Reloads.antt =====
-- What the mutations of web/src/queries/hooks.ts tell the operator about a reload that failed.
use vlessvmorectl.Base.{
  ℕ, String, ◌≡◌, ◌≢◌, false, Option, none, some, List, str_eq, eq_iff, Bool-cases, inl, inr, arith,
  or_default, if◌then◌else◌,
}
use vlessvmorectl.Types.{Server, VlessUser, Reloaded}
use vlessvmorectl.ReloadWatch.{ReloadWatch, ReloadProblem, get, use_reload_problem}
use vlessvmorectl.ReloadWatch.Store.{get-mark, get-clear, ReadLater, use_reload_problem_iff}
use vlessvmorectl.Hooks.Client.{QueryClient}
use vlessvmorectl.Hooks.Users.{resolved, use_reload_aware, on_reloaded}

-- What a failed reload is recorded as: its reason, or that there was none.
abbrev pub problem_of : {A : Type 0} → Reloaded A → ℕ → ReloadProblem
problem_of env now = record {
  marked_at = now;
  error = or_default env.reload_error "the node did not say why";
}

get-on_reloaded :
    {A : Type 0} (node : Server) (env : Reloaded A) (now : ℕ) (w : ReloadWatch) (j : String)
    → get (on_reloaded node.id (resolved env) now w) j ≡ (
        if str_eq node.id j
        then if env.reloaded then none else some (problem_of env now)
        else get w j)
unfolding on_reloaded
get-on_reloaded node env now w j = elim (Bool-cases env.reloaded) [
  | inl e ↦ rw e (get-clear w node.id j).0
  | inr e ↦
      rw e (get-mark w node.id j (or_default env.reload_error "the node did not say why") now).0
]

module _ {A : Type 0} (qc : QueryClient (List VlessUser)) (node : Server)
    (optimistic : Option (List VlessUser → List VlessUser)) (env : Reloaded A) (now : ℕ)
    (c : qc.Cache) (w : ReloadWatch) where
  -- A change that the node saved without reloading is shown as a problem of that node, with the
  -- node's reason, until a reload after the answer is read.
  pub failed_reload_shown :
      (date_parse : String → Option ℕ) (last : Option String)
      → env.reloaded ≡ false
      → ¬ ReadLater date_parse last (problem_of env now)
      → (use_reload_problem date_parse
          (use_reload_aware qc node optimistic (resolved env) now (c, w)).1
          node.id
          last).0
        ≡ some (problem_of env now)
  unfolding use_reload_aware
  failed_reload_shown date_parse last off unread =
      let shown : get (on_reloaded node.id (resolved env) now w) node.id
          ≡ some (problem_of env now) =
        ground (arith, get-on_reloaded node env now w node.id, eq_iff node.id node.id) in
      (use_reload_problem_iff date_parse (on_reloaded node.id (resolved env) now w) node.id last
          (problem_of env now) shown).0.1
        unread

  -- A mutation of one node never changes the problem of another.
  pub reload_problem_isolated :
      (j : String)
      → node.id ≢ j
      → get (use_reload_aware qc node optimistic (resolved env) now (c, w)).1 j ≡ get w j
  unfolding use_reload_aware
  reload_problem_isolated j h = ground (arith, get-on_reloaded node env now w j, eq_iff node.id j)
