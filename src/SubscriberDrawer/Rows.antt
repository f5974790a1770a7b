-- ===== src/SubscriberDrawer/Rows.antt =====
-- What a row of a subscriber says of its account.
use vlessvmorectl.Base.{
  String, Bool, true, false, ◌≡◌, ◌≢◌, ◌↔◌, eq_iff, Option-cases, ◌∙◌, sym, inl, inr, is_some,
  if◌then◌else◌, refl, Option, none, some, List, lookup, arith,
}
use vlessvmorectl.Types.{Server, VlessUser, SubscriberEntry}
use vlessvmorectl.Resolve.{
  NodeUsers, resolve_entry, server_index, find_index, missing_state, NodeState, ok, loading, failed,
  unconfigured,
}
use vlessvmorectl.SubscriberDrawer.{Strip, orphaned, gone, problem_strip, is_ok_state, row_problem}

orphaned-ne-gone : some orphaned ≢ some gone
orphaned-ne-gone h = ground (arith, eq_iff orphaned.text gone.text)

problem-eq-gone :
    (st : NodeState) (missing : Bool) → problem_strip st missing ≡ some gone → missing ≡ true
unfolding problem_strip
problem-eq-gone ok missing h = ground arith
problem-eq-gone loading missing h = ground arith
problem-eq-gone failed missing h = cc
problem-eq-gone unconfigured missing h = absurd (orphaned-ne-gone h)

missing_state_not_ok :
    (id : String) (nodes : List NodeUsers) → is_ok_state (missing_state id nodes) ≡ false
unfolding missing_state
missing_state_not_ok id nodes = ground arith

false-ne-true : false ≢ true
false-ne-true h = cc

-- The strip of a row whose list is there
abbrev listed_strip : {A : Type 0} → Option A → Option Strip
listed_strip o = if is_some o then none else some gone

none_of_gone : {A : Type 0} (o : Option A) → listed_strip o ≡ some gone → o ≡ none
none_of_gone none h = refl
none_of_gone (some a) h = cc

module _ (servers : List Server) (nodes : List NodeUsers) (entry : SubscriberEntry) where
  row_unconfigured :
      lookup entry.server_id (server_index servers) ≡ none
      → row_problem (resolve_entry servers nodes entry) ≡ some orphaned
  unfolding row_problem problem_strip resolve_entry
  row_unconfigured e = ground arith

  row_listless :
      (s : Server)
      → lookup entry.server_id (server_index servers) ≡ some s
      → find_index entry.server_id nodes ≡ none
      → row_problem (resolve_entry servers nodes entry)
        ≡ problem_strip (missing_state entry.server_id nodes) false
  unfolding row_problem resolve_entry
  row_listless s e f = ground (arith, missing_state_not_ok entry.server_id nodes)

  row_listed :
      (s : Server) (index : List (String × VlessUser))
      → lookup entry.server_id (server_index servers) ≡ some s
      → find_index entry.server_id nodes ≡ some index
      → row_problem (resolve_entry servers nodes entry)
        ≡ listed_strip (lookup entry.vless_user_id index)
  unfolding row_problem problem_strip resolve_entry
  row_listed s index e f = ground arith

  -- The account has a list to be in, and is not in it.
  abbrev pub IsGone : Type 0
  IsGone =
      (s : Server) × (index : List (String × VlessUser)) × (lookup entry.server_id
          (server_index servers)
        ≡ some s)
      × (find_index entry.server_id nodes ≡ some index)
      × (lookup entry.vless_user_id index ≡ none)

  gone_listed :
      (s : Server)
      → lookup entry.server_id (server_index servers) ≡ some s
      → row_problem (resolve_entry servers nodes entry) ≡ some gone
      → IsGone
  gone_listed s e h = elim (Option-cases (find_index entry.server_id nodes)) [
    | inl f ↦ absurd (
        false-ne-true (
          problem-eq-gone (missing_state entry.server_id nodes) false
            (sym (row_listless s e f) ∙ h)))
    | inr (index, f) ↦
        let absent =
          none_of_gone (lookup entry.vless_user_id index) (sym (row_listed s index e f) ∙ h) in
        (s, index, e, f, absent)
  ]

  gone_only : row_problem (resolve_entry servers nodes entry) ≡ some gone → IsGone
  gone_only h = elim (Option-cases (lookup entry.server_id (server_index servers))) [
    | inl e ↦ absurd (orphaned-ne-gone (sym (row_unconfigured e) ∙ h))
    | inr (s, e) ↦ gone_listed s e h
  ]

  -- A row says that its account no longer exists exactly when its server is configured, the node's list
  -- of accounts is there, and the account is not in it: never while the list is loading or failed.
  row_problem-gone_iff : (row_problem (resolve_entry servers nodes entry) ≡ some gone) ↔ IsGone
  row_problem-gone_iff = (gone_only, λ (s, index, e, f, g). row_listed s index e f ∙ (rw g refl))
