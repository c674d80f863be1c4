-- ===== src/Approvals/Once.antt =====
-- Each approval request is answered once, and approved only by an approving response.
use asterim.Prelude.{
  ℕ, ◌+◌, ◌≤◌, ◌≡◌, refl, ap, ◌∙◌, arith, inl, inr, String, Bool, true, false, ◌&&◌, List, [], ◌∷◌,
  ◌++◌, if◌then◌else◌, str_eq, str_eq_refl, str_eq-cases, Bool-cases, Map, get, has, one, is_some,
}
use asterim.Approvals.Requests.{
  requested, Manager, new_manager, Request, request_approval, cancel_each, cancel_approval,
  cancel_approvals_for_thread, recover_pending_approvals, recovery_notices, ApprovalRow, is_pending,
  ids_where, is_of_thread, waiting_of,
}
use asterim.Approvals.Settling.{
  ManagerEvent, requests, times_out, responds, cancels, cancels_thread, recovers, step, run,
  asks_in, answers_in, approvals_in, asks_in-append, answers_in-append, approvals_in-append, NewId,
  NewIds, waits, Balanced, has-put, has-delete, Answered, answered, ignored, time_out-Answered,
  respond-Answered, cancel_approval-Answered,
}

Answered-Balanced :
    (v : Bool) (id : String) (s t : Manager) → Answered v id s t → Balanced s → Balanced t
Answered-Balanced v id s t (answered p there gone asks answers agreed) h a =
    (balance, omega (arith, asks a, (h a).1))
  where
    freed : waits a t ≡ one (if str_eq id a then false else has a s.pending_approvals)
    freed = ap (λ m. one (has a m)) gone ∙ ap one (has-delete a id s.pending_approvals)

    balance : answers_in a t.log + waits a t ≡ asks_in a t.log
    balance = elim (str_eq-cases id a) [
      | inl e ↦
          let waited : waits a s ≡ 1 = ap (λ o. one (is_some o)) (rw e at there) in
          let left : waits a t ≡ 0 = rw (e, str_eq_refl a) at freed in
          omega (arith, left, waited, asks a, rw (e, str_eq_refl a) at (answers a), (h a).0)
      | inr n ↦ omega (arith, rw n at freed, asks a, rw n at (answers a), (h a).0)
    ]
Answered-Balanced v id s t (ignored e same log) h a = rw (same, log) (h a)

request_approval-Balanced :
    (db_ok : Bool) (id : String) (r : Request) (s : Manager)
    → asks_in id s.log ≡ 0
    → Balanced s
    → Balanced (request_approval db_ok id r s)
unfolding request_approval
request_approval-Balanced db_ok id r s new h a = elim (str_eq-cases id a) [
  | inl e ↦
      let held : waits a (request_approval db_ok id r s) ≡ 1 =
        ap one (has-put a id (waiting_of r) s.pending_approvals) ∙ rw (e, str_eq_refl a) refl in
      let logged : asks_in a (s.log ++ requested id ∷ []) ≡ asks_in a s.log + 1 =
        asks_in-append a s.log (requested id ∷ []) ∙ rw (e, str_eq_refl a) refl in
      (
        omega (
          arith,
          held,
          logged,
          answers_in-append a s.log (requested id ∷ []),
          rw e at new,
          (h a).0,
        ),
        omega (arith, logged, rw e at new),
      )
  | inr n ↦
      let held : waits a (request_approval db_ok id r s) ≡ waits a s =
        ap one (has-put a id (waiting_of r) s.pending_approvals) ∙ rw n refl in
      let logged : asks_in a (s.log ++ requested id ∷ []) ≡ asks_in a s.log =
        asks_in-append a s.log (requested id ∷ []) ∙ rw n (omega arith) in
      (
        omega (arith, held, logged, answers_in-append a s.log (requested id ∷ []), (h a).0),
        omega (arith, logged, (h a).1),
      )
]

cancel_each-Balanced :
    (db_ok : String → Bool) (ids : List String) (s : Manager)
    → Balanced s
    → Balanced (cancel_each db_ok ids s)
unfolding cancel_each
cancel_each-Balanced db_ok [] s h = h
cancel_each-Balanced db_ok (id ∷ ids) s h =
    cancel_each-Balanced db_ok ids _
      (Answered-Balanced false id s _ (cancel_approval-Answered (db_ok id) id s) h)

notices-asks : (a : String) (m : Map ApprovalRow) → asks_in a (recovery_notices m) ≡ 0
unfolding recovery_notices
notices-asks a [] = refl
notices-asks a ((j, r) ∷ m) = elim (Bool-cases (is_pending r.status)) [
  | inl e ↦ rw e (notices-asks a m)
  | inr e ↦ rw e (notices-asks a m)
]

notices-answers : (a : String) (m : Map ApprovalRow) → answers_in a (recovery_notices m) ≡ 0
unfolding recovery_notices
notices-answers a [] = refl
notices-answers a ((j, r) ∷ m) = elim (Bool-cases (is_pending r.status)) [
  | inl e ↦ rw e (notices-answers a m)
  | inr e ↦ rw e (notices-answers a m)
]

pub notices-approvals : (a : String) (m : Map ApprovalRow) → approvals_in a (recovery_notices m) ≡ 0
unfolding recovery_notices
notices-approvals a [] = refl
notices-approvals a ((j, r) ∷ m) = elim (Bool-cases (is_pending r.status)) [
  | inl e ↦ rw e (notices-approvals a m)
  | inr e ↦ rw e (notices-approvals a m)
]

pub step-Balanced : (e : ManagerEvent) (s : Manager) → NewId e s → Balanced s → Balanced (step e s)
unfolding step cancel_approvals_for_thread recover_pending_approvals
step-Balanced (requests db_ok id r) s new h = request_approval-Balanced db_ok id r s new h
step-Balanced (times_out db_ok id) s new h =
    Answered-Balanced false id s _ (time_out-Answered db_ok id s) h
step-Balanced (responds db_ok id v) s new h =
    Answered-Balanced v id s _ (respond-Answered db_ok id v s) h
step-Balanced (cancels db_ok id) s new h =
    Answered-Balanced false id s _ (cancel_approval-Answered db_ok id s) h
step-Balanced (cancels_thread db_ok thread) s new h =
    cancel_each-Balanced db_ok (ids_where (is_of_thread thread) s.pending_approvals) s h
step-Balanced (recovers true) s new h = λ a. (
  omega (
    arith,
    asks_in-append a s.log (recovery_notices s.rows),
    answers_in-append a s.log (recovery_notices s.rows),
    notices-asks a s.rows,
    notices-answers a s.rows,
    (h a).0,
  ),
  omega (arith, asks_in-append a s.log (recovery_notices s.rows), notices-asks a s.rows, (h a).1),
)
step-Balanced (recovers false) s new h = h

run-Balanced :
    (es : List ManagerEvent) (s : Manager) → NewIds es s → Balanced s → Balanced (run es s)
unfolding run
run-Balanced [] s new h = h
run-Balanced (e ∷ es) s (new, news) h = run-Balanced es _ news (step-Balanced e s new h)

-- Whatever requests, timeouts, responses, cancellations and recoveries come in whatever order, and
-- whichever writes to the database fail: the promise of each request is resolved at most once, and
-- it is unresolved exactly while the request is among those that wait. New requests get new ids.
pub run-answers :
    (es : List ManagerEvent)
    → NewIds es new_manager
    → (a : String)
    → (answers_in a (run es new_manager).log + waits a (run es new_manager)
        ≡ asks_in a (run es new_manager).log)
      × (asks_in a (run es new_manager).log ≤ 1)
unfolding get
run-answers es new a = run-Balanced es new_manager new (λ b. (refl, omega arith)) a

-- How many approving responses name a request.
abbrev pub approving : String → List ManagerEvent → ℕ
approving a [] = 0
approving a (responds db_ok id v ∷ es) = one (str_eq id a && v) + approving a es
approving a (_ ∷ es) = approving a es

Answered-approvals :
    (v : Bool) (id a : String) (s t : Manager)
    → Answered v id s t
    → approvals_in a t.log ≤ approvals_in a s.log + one (str_eq id a && v)
Answered-approvals v id a s t (answered p there gone asks answers agreed) = omega (arith, agreed a)
Answered-approvals v id a s t (ignored e same log) = rw log (omega arith)

refused-approvals :
    (id a : String) (s t : Manager)
    → Answered false id s t
    → approvals_in a t.log ≤ approvals_in a s.log
refused-approvals id a s t h = elim (Bool-cases (str_eq id a)) [
  | inl e ↦ omega (arith, rw e at (Answered-approvals false id a s t h))
  | inr e ↦ omega (arith, rw e at (Answered-approvals false id a s t h))
]

cancel_each-approvals :
    (a : String) (db_ok : String → Bool) (ids : List String) (s : Manager)
    → approvals_in a (cancel_each db_ok ids s).log ≤ approvals_in a s.log
unfolding cancel_each
cancel_each-approvals a db_ok [] s = omega arith
cancel_each-approvals a db_ok (id ∷ ids) s = omega (
  arith,
  cancel_each-approvals a db_ok ids (cancel_approval (db_ok id) id s).0,
  refused-approvals id a s _ (cancel_approval-Answered (db_ok id) id s),
)

-- Doubt means no: a request resolves to `true` at most as often as approving responses name it. A
-- timeout, a cancellation, the end of a thread and a recovery never approve anything.
pub run-approvals :
    (a : String) (es : List ManagerEvent) (s : Manager)
    → approvals_in a (run es s).log ≤ approvals_in a s.log + approving a es
unfolding run step cancel_approvals_for_thread recover_pending_approvals request_approval
run-approvals a [] s = omega arith
run-approvals a (requests db_ok id r ∷ es) s = omega (
  arith,
  run-approvals a es (request_approval db_ok id r s),
  approvals_in-append a s.log (requested id ∷ []),
)
run-approvals a (times_out db_ok id ∷ es) s = omega (
  arith,
  run-approvals a es (step (times_out db_ok id) s),
  refused-approvals id a s _ (time_out-Answered db_ok id s),
)
run-approvals a (responds db_ok id v ∷ es) s = omega (
  arith,
  run-approvals a es (step (responds db_ok id v) s),
  Answered-approvals v id a s _ (respond-Answered db_ok id v s),
)
run-approvals a (cancels db_ok id ∷ es) s = omega (
  arith,
  run-approvals a es (step (cancels db_ok id) s),
  refused-approvals id a s _ (cancel_approval-Answered db_ok id s),
)
run-approvals a (cancels_thread db_ok thread ∷ es) s = omega (
  arith,
  run-approvals a es (step (cancels_thread db_ok thread) s),
  cancel_each-approvals a db_ok (ids_where (is_of_thread thread) s.pending_approvals) s,
)
run-approvals a (recovers true ∷ es) s = omega (
  arith,
  run-approvals a es (step (recovers true) s),
  approvals_in-append a s.log (recovery_notices s.rows),
  notices-approvals a s.rows,
)
run-approvals a (recovers false ∷ es) s = run-approvals a es s
