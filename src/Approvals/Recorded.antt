-- ===== src/Approvals/Recorded.antt =====
-- The table of approvals over whole runs, while the database works.
use asterim.Prelude.{
  ◌≤◌, ◌≡◌, refl, ap, ◌∙◌, arith, inl, inr, String, Bool, true, false, some, List, [], ◌∷◌,
  if◌then◌else◌, str_eq, str_eq_refl, str_eq-cases, Option-cases, none, Map, get, get-put, one, has,
}
use asterim.Approvals.Requests.{
  pending, cancelled, expired, decision, Effect, requested, recovered, withdrawn, resolved, Manager,
  ApprovalRow, new_manager, Request, row_of, waiting_of, request_approval, time_out, respond,
  cancel_approval, cancel_each, cancel_approvals_for_thread, recover_pending_approvals,
  recovery_notices, ids_where, is_of_thread, update_status,
}
use asterim.Approvals.Settling.{
  ManagerEvent, requests, times_out, responds, cancels, cancels_thread, recovers, step, run,
  asks_in, answers_in, approvals_in, approvals_in-append, NewId, NewIds, waits, Balanced, has-put,
  time_out-Answered, respond-Answered, cancel_approval-Answered,
}
use asterim.Approvals.Once.{step-Balanced, notices-approvals}
use asterim.Approvals.Rows.{
  status_of, row_status, is_open, is_approved, Recorded, Answered-Recorded,
}

-- No statement of the event fails.
abbrev pub Reliable : ManagerEvent → Type 0
Reliable (requests db_ok id r) = db_ok ≡ true
Reliable (times_out db_ok id) = db_ok ≡ true
Reliable (responds db_ok id v) = db_ok ≡ true
Reliable (cancels db_ok id) = db_ok ≡ true
Reliable (cancels_thread db_ok thread) = (id : String) → db_ok id ≡ true
Reliable (recovers db_ok) = Unit

abbrev pub AllReliable : List ManagerEvent → Type 0
AllReliable [] = Unit
AllReliable (e ∷ es) = Reliable e × AllReliable es

approvals-le_answers : (a : String) (es : List Effect) → approvals_in a es ≤ answers_in a es
approvals-le_answers a [] = omega arith
approvals-le_answers a (requested b ∷ es) = approvals-le_answers a es
approvals-le_answers a (recovered b ∷ es) = approvals-le_answers a es
approvals-le_answers a (withdrawn b t ∷ es) = approvals-le_answers a es
approvals-le_answers a (resolved b v ∷ es) = ground (arith, approvals-le_answers a es)

-- The table when the process starts.
module _ (old : Map ApprovalRow) where
  request_approval-Recorded :
      (id : String) (r : Request) (s : Manager)
      → asks_in id s.log ≡ 0
      → Balanced s
      → Recorded old s
      → Recorded old (request_approval true id r s)
  unfolding request_approval
  request_approval-Recorded id r s new balanced h a novel =
      let t : Manager = request_approval true id r s in
      let logged = approvals_in-append a s.log (requested id ∷ []) in
      let row : row_status a t ≡ status_of (if str_eq id a then some (row_of r) else get a s.rows) =
        ap status_of (get-put a id (row_of r) s.rows) in
      let held : waits a t ≡ one (if str_eq id a then true else has a s.pending_approvals) =
        ap one (has-put a id (waiting_of r) s.pending_approvals) in
      elim (str_eq-cases id a) [
        | inl same ↦
            let fresh : row_status a t ≡ some pending = row ∙ rw (same, str_eq_refl a) refl in
            let up : waits a t ≡ 1 = held ∙ rw (same, str_eq_refl a) refl in
            (
              omega (arith, ap (λ o. one (is_open o)) fresh, up),
              omega (
                arith,
                ap (λ o. one (is_approved o)) fresh,
                logged,
                approvals-le_answers a s.log,
                (balanced a).0,
                rw same at new,
              ),
            )
        | inr other ↦
            let kept : row_status a t ≡ row_status a s = row ∙ rw other refl in
            (
              omega (arith, ap (λ o. one (is_open o)) kept, (h a novel).0, rw other at held),
              omega (arith, ap (λ o. one (is_approved o)) kept, (h a novel).1, logged),
            )
      ]

  decision_shut : (v : Bool) → is_open (some (decision v)) ≡ false
  decision_shut true = refl
  decision_shut false = refl

  decision_agrees : (v : Bool) → is_approved (some (decision v)) ≡ v
  decision_agrees true = refl
  decision_agrees false = refl

  time_out-Recorded :
      (id : String) (s : Manager) → Recorded old s → Recorded old (time_out true id s)
  unfolding time_out
  time_out-Recorded id s h = elim (Option-cases (get id s.pending_approvals)) [
    | inl e ↦ rw e h
    | inr (p, e) ↦
        Answered-Recorded old false expired id s (time_out true id s) refl refl (rw e refl)
          (time_out-Answered true id s) h
  ]

  cancel_approval-Recorded :
      (id : String) (s : Manager) → Recorded old s → Recorded old (cancel_approval true id s).0
  unfolding cancel_approval
  cancel_approval-Recorded id s h = elim (Option-cases (get id s.pending_approvals)) [
    | inl e ↦ rw e h
    | inr (p, e) ↦
        Answered-Recorded old false cancelled id s (cancel_approval true id s).0 refl refl
          (rw e refl) (cancel_approval-Answered true id s) h
  ]

  respond-rows :
      (id : String) (v : Bool) (s : Manager)
      → (respond true id v s).rows ≡ update_status true (decision v) id s.rows
  unfolding respond
  respond-rows id v s = elim (Option-cases (get id s.pending_approvals)) [
    | inl e ↦ rw e refl
    | inr (p, e) ↦ rw e refl
  ]

  respond-Recorded :
      (id : String) (v : Bool) (s : Manager) → Recorded old s → Recorded old (respond true id v s)
  respond-Recorded id v s h =
      Answered-Recorded old v (decision v) id s (respond true id v s) (decision_shut v)
        (decision_agrees v) (respond-rows id v s) (respond-Answered true id v s) h

  cancel_each-Recorded :
      (db_ok : String → Bool) (ids : List String) (s : Manager)
      → ((id : String) → db_ok id ≡ true)
      → Recorded old s
      → Recorded old (cancel_each db_ok ids s)
  unfolding cancel_each
  cancel_each-Recorded db_ok [] s works h = h
  cancel_each-Recorded db_ok (id ∷ ids) s works h =
      cancel_each-Recorded db_ok ids _ works (rw (works id) (cancel_approval-Recorded id s h))

  step-Recorded :
      (e : ManagerEvent) (s : Manager)
      → Reliable e
      → NewId e s
      → Balanced s
      → Recorded old s
      → Recorded old (step e s)
  unfolding step cancel_approvals_for_thread recover_pending_approvals
  step-Recorded (requests db_ok id r) s works new b h =
      rw works (request_approval-Recorded id r s new b h)
  step-Recorded (times_out db_ok id) s works new b h = rw works (time_out-Recorded id s h)
  step-Recorded (responds db_ok id v) s works new b h = rw works (respond-Recorded id v s h)
  step-Recorded (cancels db_ok id) s works new b h = rw works (cancel_approval-Recorded id s h)
  step-Recorded (cancels_thread db_ok thread) s works new b h =
      cancel_each-Recorded db_ok (ids_where (is_of_thread thread) s.pending_approvals) s works h
  step-Recorded (recovers true) s works new b h = λ a novel. (
    (h a novel).0,
    omega (
      arith,
      (h a novel).1,
      approvals_in-append a s.log (recovery_notices s.rows),
      notices-approvals a s.rows,
    ),
  )
  step-Recorded (recovers false) s works new b h = h

  run-Recorded :
      (es : List ManagerEvent) (s : Manager)
      → AllReliable es
      → NewIds es s
      → Balanced s
      → Recorded old s
      → Recorded old (run es s)
  unfolding run
  run-Recorded [] s works new b h = h
  run-Recorded (e ∷ es) s (work, works) (new, news) b h =
      run-Recorded es _ works news (step-Balanced e s new b) (step-Recorded e s work new b h)

  -- While no statement of the database fails, its table agrees with the promises after any events, for
  -- every request that the table did not hold when the process started: its row says `pending` exactly
  -- when it waits in this process, and `approved` exactly when its promise was resolved to `true`. The
  -- table may hold any rows of earlier processes, which a recovery announces. New requests get new
  -- ids.
  pub run-rows :
      (es : List ManagerEvent)
      → AllReliable es
      → NewIds es (record new_manager { rows = old })
      → (a : String) → get a old ≡ none
      → let s = run es (record new_manager { rows = old }) in
        (one (is_open (row_status a s)) ≡ waits a s)
        × (one (is_approved (row_status a s)) ≡ approvals_in a s.log)
  unfolding get
  run-rows es works new a novel =
      run-Recorded es (record new_manager { rows = old }) works new (λ b. (refl, omega arith))
        (λ b absent. rw absent (refl, refl)) a novel
