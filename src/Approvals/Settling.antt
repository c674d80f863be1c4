-- ===== src/Approvals/Settling.antt =====
-- The events of the approval manager, and what each does to the count of requests and answers.
use asterim.Prelude.{
  ℕ, ◌+◌, ◌≤◌, ◌≡◌, refl, ap, ◌∙◌, arith, inl, inr, String, Bool, true, false, ◌&&◌, none, some,
  List, [], ◌∷◌, ◌++◌, if◌then◌else◌, str_eq, Option-cases, Map, get, put, delete, has, get-put,
  get-delete, ap-if, is_some, one,
}
use asterim.Approvals.Requests.{
  PendingApproval, Effect, requested, recovered, withdrawn, resolved, Manager, Request,
  request_approval, time_out, respond, cancel_approval, cancel_approvals_for_thread,
  recover_pending_approvals,
}

pub data ManagerEvent : Type 0 where
  requests : Bool → String → Request → ManagerEvent
  times_out : Bool → String → ManagerEvent
  responds : Bool → String → Bool → ManagerEvent
  cancels : Bool → String → ManagerEvent
  cancels_thread : (String → Bool) → String → ManagerEvent
  recovers : Bool → ManagerEvent

unfoldable pub step : ManagerEvent → Manager → Manager
step (requests db_ok id r) s = request_approval db_ok id r s
step (times_out db_ok id) s = time_out db_ok id s
step (responds db_ok id verdict) s = respond db_ok id verdict s
step (cancels db_ok id) s = (cancel_approval db_ok id s).0
step (cancels_thread db_ok thread) s = (cancel_approvals_for_thread db_ok thread s).0
step (recovers db_ok) s = recover_pending_approvals db_ok s

unfoldable pub run : List ManagerEvent → Manager → Manager
run [] s = s
run (e ∷ es) s = run es (step e s)

-- How often a request was made, and how often its promise was resolved.
abbrev pub asks_in : String → List Effect → ℕ
asks_in a [] = 0
asks_in a (requested b ∷ es) = one (str_eq b a) + asks_in a es
asks_in a (_ ∷ es) = asks_in a es

abbrev pub answers_in : String → List Effect → ℕ
answers_in a [] = 0
answers_in a (resolved b v ∷ es) = one (str_eq b a) + answers_in a es
answers_in a (_ ∷ es) = answers_in a es

abbrev pub approvals_in : String → List Effect → ℕ
approvals_in a [] = 0
approvals_in a (resolved b v ∷ es) = one (str_eq b a && v) + approvals_in a es
approvals_in a (_ ∷ es) = approvals_in a es

pub asks_in-append :
    (a : String) (xs ys : List Effect) → asks_in a (xs ++ ys) ≡ asks_in a xs + asks_in a ys
asks_in-append a [] ys = omega arith
asks_in-append a (requested b ∷ xs) ys = omega (arith, asks_in-append a xs ys)
asks_in-append a (recovered b ∷ xs) ys = asks_in-append a xs ys
asks_in-append a (withdrawn b t ∷ xs) ys = asks_in-append a xs ys
asks_in-append a (resolved b v ∷ xs) ys = asks_in-append a xs ys

pub answers_in-append :
    (a : String) (xs ys : List Effect) → answers_in a (xs ++ ys) ≡ answers_in a xs + answers_in a ys
answers_in-append a [] ys = omega arith
answers_in-append a (resolved b v ∷ xs) ys = omega (arith, answers_in-append a xs ys)
answers_in-append a (recovered b ∷ xs) ys = answers_in-append a xs ys
answers_in-append a (withdrawn b t ∷ xs) ys = answers_in-append a xs ys
answers_in-append a (requested b ∷ xs) ys = answers_in-append a xs ys

pub approvals_in-append :
    (a : String) (xs ys : List Effect)
    → approvals_in a (xs ++ ys) ≡ approvals_in a xs + approvals_in a ys
approvals_in-append a [] ys = omega arith
approvals_in-append a (resolved b v ∷ xs) ys = omega (arith, approvals_in-append a xs ys)
approvals_in-append a (recovered b ∷ xs) ys = approvals_in-append a xs ys
approvals_in-append a (withdrawn b t ∷ xs) ys = approvals_in-append a xs ys
approvals_in-append a (requested b ∷ xs) ys = approvals_in-append a xs ys

-- `crypto.randomUUID` gives an id that no request had.
abbrev pub NewId : ManagerEvent → Manager → Type 0
NewId (requests db_ok id r) s = asks_in id s.log ≡ 0
NewId _ s = Unit

abbrev pub NewIds : List ManagerEvent → Manager → Type 0
NewIds [] s = Unit
NewIds (e ∷ es) s = NewId e s × NewIds es (step e s)

abbrev pub waits : String → Manager → ℕ
waits a s = one (has a s.pending_approvals)

-- Every request waits or was answered, and none was both or twice.
abbrev pub Balanced : Manager → Type 0
Balanced s =
    (a : String) → (answers_in a s.log + waits a s ≡ asks_in a s.log) × (asks_in a s.log ≤ 1)

pub has-put :
    (a b : String) (p : PendingApproval) (m : Map PendingApproval)
    → has a (put b p m) ≡ (if str_eq b a then true else has a m)
has-put a b p m = ap is_some (get-put a b p m) ∙ ap-if is_some (str_eq b a) _ _

pub has-delete :
    (a b : String) (m : Map PendingApproval)
    → has a (delete b m) ≡ (if str_eq b a then false else has a m)
has-delete a b m = ap is_some (get-delete a b m) ∙ ap-if is_some (str_eq b a) _ _

-- One request answered with `v`, or nothing that counts.
pub data Answered (v : Bool) (id : String) (s t : Manager) : Type 0 where
  answered :
      (p : PendingApproval)
      → get id s.pending_approvals ≡ some p
      → t.pending_approvals ≡ delete id s.pending_approvals
      → ((a : String) → asks_in a t.log ≡ asks_in a s.log)
      → ((a : String) → answers_in a t.log ≡ answers_in a s.log + one (str_eq id a))
      → ((a : String) → approvals_in a t.log ≡ approvals_in a s.log + one (str_eq id a && v))
      → Answered v id s t
  ignored :
      get id s.pending_approvals ≡ none
      → t.pending_approvals ≡ s.pending_approvals
      → t.log ≡ s.log
      → Answered v id s t

pub time_out-Answered :
    (db_ok : Bool) (id : String) (s : Manager) → Answered false id s (time_out db_ok id s)
unfolding time_out
time_out-Answered db_ok id s = elim (Option-cases (get id s.pending_approvals)) [
  | inl e ↦ rw e (ignored e refl refl)
  | inr (p, e) ↦ rw e (
      answered p e refl (λ a. omega (arith, asks_in-append a s.log (resolved id false ∷ [])))
        (λ a. omega (arith, answers_in-append a s.log (resolved id false ∷ [])))
        (λ a. omega (arith, approvals_in-append a s.log (resolved id false ∷ []))))
]

pub respond-Answered :
    (db_ok : Bool) (id : String) (v : Bool) (s : Manager) → Answered v id s (respond db_ok id v s)
unfolding respond
respond-Answered db_ok id v s = elim (Option-cases (get id s.pending_approvals)) [
  | inl e ↦ rw e (ignored e refl refl)
  | inr (p, e) ↦ rw e (
      answered p e refl (λ a. omega (arith, asks_in-append a s.log (resolved id v ∷ [])))
        (λ a. omega (arith, answers_in-append a s.log (resolved id v ∷ [])))
        (λ a. omega (arith, approvals_in-append a s.log (resolved id v ∷ []))))
]

pub cancel_approval-Answered :
    (db_ok : Bool) (id : String) (s : Manager) → Answered false id s (cancel_approval db_ok id s).0
unfolding cancel_approval
cancel_approval-Answered db_ok id s = elim (Option-cases (get id s.pending_approvals)) [
  | inl e ↦ rw e (ignored e refl refl)
  | inr (p, e) ↦
      let es : List Effect = withdrawn id p.thread_id ∷ resolved id false ∷ [] in
      rw e (
        answered p e refl (λ a. omega (arith, asks_in-append a s.log es))
          (λ a. omega (arith, answers_in-append a s.log es))
          (λ a. omega (arith, approvals_in-append a s.log es)))
]
