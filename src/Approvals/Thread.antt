-- ===== src/Approvals/Thread.antt =====
-- The end of a thread, for the approval requests that wait.
use asterim.Prelude.{
  ◌≡◌, refl, ap, ◌∙◌, inl, inr, String, Bool, true, false, ◌||◌, Option, none, some, List, [], ◌∷◌,
  if◌then◌else◌, str_eq, str_eq_refl, str_eq_comm, str_eq-cases, Bool-cases, Option-cases, Map, get,
  get-delete, IsKeyed, includes,
}
use asterim.Approvals.Requests.{
  PendingApproval, Manager, cancel_approval, cancel_each, cancel_approvals_for_thread, ids_where,
  is_of_thread,
}

-- What is left of a request that may have been raised for the thread.
abbrev pub unless : (PendingApproval → Bool) → Option PendingApproval → Option PendingApproval
unless test none = none
unless test (some p) = if test p then none else some p

abbrev passes : (PendingApproval → Bool) → Option PendingApproval → Bool
passes test none = false
passes test (some p) = test p

ids_where-includes :
    (test : PendingApproval → Bool) (a : String) (m : Map PendingApproval)
    → IsKeyed m
    → includes a (ids_where test m) ≡ passes test (get a m)
unfolding ids_where get
ids_where-includes test a [] h = refl
ids_where-includes test a ((j, p) ∷ m) (fresh, h) = elim (str_eq-cases j a) [
  | inl same ↦ elim (Bool-cases (test p)) [
    | inl e ↦ rw (same, str_eq_refl a, e) (rw (str_eq_refl a) refl)
    | inr e ↦
        rw (same, str_eq_refl a, e)
          (ids_where-includes test a m h ∙ ap (passes test) (rw same at fresh))
  ]
  | inr other ↦ elim (Bool-cases (test p)) [
    | inl e ↦ rw (other, e) (rw (str_eq_comm a j, other) (ids_where-includes test a m h))
    | inr e ↦ rw (other, e) (ids_where-includes test a m h)
  ]
]

cancel_approval-get :
    (db_ok : Bool) (id a : String) (s : Manager)
    → get a (cancel_approval db_ok id s).0.pending_approvals
      ≡ (if str_eq id a then none else get a s.pending_approvals)
unfolding cancel_approval
cancel_approval-get db_ok id a s = elim (Option-cases (get id s.pending_approvals)) [
  | inr (p, e) ↦ rw e (get-delete a id s.pending_approvals)
  | inl e ↦ rw e (elim (str_eq-cases id a) [
    | inl same ↦ rw (same, str_eq_refl a) (rw same at e)
    | inr other ↦ rw other refl
  ])
]

none_twice :
    (b c : Bool) (o : Option PendingApproval)
    → (if c then none else if b then none else o) ≡ (if b || c then none else o)
none_twice true true o = refl
none_twice true false o = refl
none_twice false true o = refl
none_twice false false o = refl

unless-passes :
    (test : PendingApproval → Bool) (o : Option PendingApproval)
    → (if passes test o then none else o) ≡ unless test o
unless-passes test none = refl
unless-passes test (some p) = refl

cancel_each-get :
    (db_ok : String → Bool) (a : String) (ids : List String) (s : Manager)
    → get a (cancel_each db_ok ids s).pending_approvals
      ≡ (if includes a ids then none else get a s.pending_approvals)
unfolding cancel_each
cancel_each-get db_ok a [] s = refl
cancel_each-get db_ok a (id ∷ ids) s =
    let next : Manager = (cancel_approval (db_ok id) id s).0 in
    cancel_each-get db_ok a ids next
    ∙ (ap (λ o. if includes a ids then none else o) (cancel_approval-get (db_ok id) id a s)
        ∙ (none_twice (str_eq id a) (includes a ids) (get a s.pending_approvals)
            ∙ ap (λ b. if b || includes a ids then none else get a s.pending_approvals)
                (str_eq_comm id a)))

-- When a thread ends, no request of it waits any more, and those of other threads wait as before.
pub cancel_approvals_for_thread-pending :
    (db_ok : String → Bool) (thread a : String) (s : Manager)
    → IsKeyed s.pending_approvals
    → get a (cancel_approvals_for_thread db_ok thread s).0.pending_approvals
      ≡ unless (is_of_thread thread) (get a s.pending_approvals)
unfolding cancel_approvals_for_thread
cancel_approvals_for_thread-pending db_ok thread a s h =
    cancel_each-get db_ok a (ids_where (is_of_thread thread) s.pending_approvals) s
    ∙ (ap (λ b. if b then none else get a s.pending_approvals)
          (ids_where-includes (is_of_thread thread) a s.pending_approvals h)
        ∙ unless-passes (is_of_thread thread) (get a s.pending_approvals))
