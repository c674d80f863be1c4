-- ===== src/Engine/Batches.antt =====
-- What is recorded of a batch, and what is settled of the steps that are left.
use asterim.Prelude.{
  ℕ, suc, ◌≡◌, refl, sym, subst, ◌⊎◌, inl, inr, String, Bool, true, false, Option, none, some, List,
  [], ◌∷◌, append-nil, if◌then◌else◌, str_eq, str_eq_refl, str_eq_iff, str_eq-cases, Bool-cases,
  any, All, Map, get, put, get-put,
}
use asterim.Pipeline.Graph.{
  StepStatus, pending, running, passed, failed, skipped, cancelled, PipelineStep,
}
use asterim.Engine.Types.{
  DelegationResult, PipelineStepWorktree, Event, step_completed, Settlement, committed, uncommitted,
  World, Execution, Reason, message,
}
use asterim.Engine.Dispatch.{is_completed, attempts_of, Outcomes}
use asterim.Engine.Loop.{
  is_open, settled_step, settle_step, settle_remaining, verdict_of, passed_verdict, settled_verdict,
  record_row, record_outcome, record_outcomes, is_unpassed, first_failed,
}
use asterim.Engine.Changes.{step_is, says_passed, Change, same, write, after}
use asterim.Engine.Moves.{steps_of}

abbrev pub is_settled : StepStatus → Bool
is_settled passed = true
is_settled failed = true
is_settled cancelled = true
is_settled _ = false

abbrev pub is_settled_status : Option StepStatus → Bool
is_settled_status none = false
is_settled_status (some v) = is_settled v

verdict_settled :
    (w : World) (tick : ℕ) (why : Option String) (t : Option PipelineStepWorktree)
    (r : Option DelegationResult)
    → is_settled (verdict_of w tick why t r).status ≡ true
verdict_settled w tick why t r = elim (Bool-cases (is_completed r)) [
  | inr e ↦ rw e (unpassed why)
  | inl e ↦ rw e (done why t)
]
  where
    unpassed :
        (o : Option String) → is_settled (elim o [ none ↦ failed | some y ↦ cancelled ]) ≡ true
    unpassed none = refl
    unpassed (some y) = refl

    committed_or_not : (o : Settlement) → is_settled (settled_verdict (suc tick) o).status ≡ true
    committed_or_not (committed sha) = refl
    committed_or_not (uncommitted y) = refl

    done :
        (o : Option String) (u : Option PipelineStepWorktree)
        → is_settled (passed_verdict w tick o u).status ≡ true
    done none (some u) = committed_or_not (w.settle (suc tick) u)
    done none none = refl
    done (some y) none = refl
    done (some y) (some u) = refl

-- The batch is recorded: its steps get their last status, and are said to have ended.
abbrev pub Recorded : List PipelineStep → (Event → Type 0) → Execution → Execution → Type 0
Recorded batch Ev x y =
    Change (λ id v. (any (step_is id) batch ≡ true) × (is_settled v ≡ true)) Ev x y

passed_said :
    (id : String) (v : StepStatus)
    → v ≡ passed
    → any (says_passed id) (step_completed id v ∷ []) ≡ true
passed_said id v e =
    subst (λ u. any (says_passed id) (step_completed id u ∷ []) ≡ true) (sym e)
      (rw (str_eq_refl id) refl)

pub record_outcomes-Recorded :
    (batch : List PipelineStep) (Ev : Event → Type 0) (w : World) (why : Option String)
    (os : Outcomes) (x : Execution)
    → ((id : String) (v : StepStatus) → Ev (step_completed id v))
    → All (λ s. any (step_is s.id) batch ≡ true) (steps_of os)
    → Recorded batch Ev x (record_outcomes w why os x)
unfolding record_outcomes record_outcome record_row
record_outcomes-Recorded batch Ev w why [] x evs h = same x x refl refl refl
record_outcomes-Recorded batch Ev w why ((s, r) ∷ os) x evs (among, h) =
    let t = get s.id x.worktrees in
    let v = verdict_of w x.tick why t r in
    after
      (write x (record_outcome w why (s, r) x) s.id v.status
        (record_row (w.now v.tick) v (attempts_of s 0 x) t r why)
        (step_completed s.id v.status ∷ []) (among, verdict_settled w x.tick why t r)
        (λ row. (refl, refl)) (passed_said s.id v.status) (evs s.id v.status, tt) refl refl refl)
      (record_outcomes-Recorded batch Ev w why os (record_outcome w why (s, r) x) evs h)

settled_stays :
    (w : World) (why : Option String) (os : Outcomes) (x : Execution) (k : String)
    → is_settled_status (get k x.statuses) ≡ true
    → is_settled_status (get k (record_outcomes w why os x).statuses) ≡ true
unfolding record_outcomes record_outcome
settled_stays w why [] x k h = h
settled_stays w why ((s, r) ∷ os) x k h =
    let v = verdict_of w x.tick why (get s.id x.worktrees) r in
    settled_stays w why os (record_outcome w why (s, r) x) k (elim (Bool-cases (str_eq s.id k)) [
      | inl e ↦
          rw (get-put k s.id v.status x.statuses, e)
            (verdict_settled w x.tick why (get s.id x.worktrees) r)
      | inr e ↦ rw (get-put k s.id v.status x.statuses, e) h
    ])

-- Every step of the batch has its last status.
pub record_outcomes-settled :
    (w : World) (why : Option String) (os : Outcomes) (x : Execution) (k : String)
    → any (step_is k) (steps_of os) ≡ true
    → is_settled_status (get k (record_outcomes w why os x).statuses) ≡ true
unfolding record_outcomes record_outcome
record_outcomes-settled w why [] x k h = absurd (cc)
record_outcomes-settled w why ((s, r) ∷ os) x k h =
    let v = verdict_of w x.tick why (get s.id x.worktrees) r in
    elim (Bool-cases (str_eq s.id k)) [
      | inr e ↦ record_outcomes-settled w why os (record_outcome w why (s, r) x) k (rw e at h)
      | inl e ↦ settled_stays w why os (record_outcome w why (s, r) x) k (
          rw (get-put k s.id v.status x.statuses, e)
            (verdict_settled w x.tick why (get s.id x.worktrees) r))
    ]

-- With no failed step in it, all of the batch has passed.
pub first_failed-none :
    (m : Map StepStatus) (batch : List PipelineStep) (k : String)
    → first_failed m batch ≡ none
    → any (step_is k) batch ≡ true
    → get k m ≡ some passed
unfolding first_failed
first_failed-none m [] k h e = absurd (cc)
first_failed-none m (s ∷ ss) k h e = elim (Bool-cases (is_unpassed (get s.id m))) [
  | inl bad ↦ absurd (let l : some s.id ≡ none = rw bad at h in cc)
  | inr good ↦ elim (str_eq-cases s.id k) [
    | inl here ↦ subst (λ j. get j m ≡ some passed) here (passed_of (get s.id m) good)
    | inr other ↦ first_failed-none m ss k (rw good at h) (rw other at e)
  ]
]
  where
    passed_of : (o : Option StepStatus) → is_unpassed o ≡ false → o ≡ some passed
    passed_of none b = absurd (cc)
    passed_of (some passed) b = refl
    passed_of (some pending) b = absurd (cc)
    passed_of (some running) b = absurd (cc)
    passed_of (some failed) b = absurd (cc)
    passed_of (some skipped) b = absurd (cc)
    passed_of (some cancelled) b = absurd (cc)

abbrev pub Remaining :
    List PipelineStep → StepStatus → (Event → Type 0) → Execution → Execution → Type 0
Remaining steps status Ev x y =
    Change (λ id v. (any (step_is id) steps ≡ true) × (v ≡ status)) Ev x y

settle_step-Remaining :
    (steps : List PipelineStep) (Ev : Event → Type 0) (at : ℕ) (s : PipelineStep)
    (status : StepStatus) (reason : Reason) (x : Execution)
    → (status ≡ passed → ⊥)
    → any (step_is s.id) steps ≡ true
    → Remaining steps status Ev x (settle_step at s status reason x)
unfolding settle_step
settle_step-Remaining steps Ev at s status reason x bad among = when (is_open (get s.id x.statuses))
  where
    when :
        (b : Bool)
        → Remaining steps status Ev x (if b then settled_step at s.id status reason x else x)
    when false = same x x refl refl refl
    when true =
        write x (settled_step at s.id status reason x) s.id status
          (λ r. record r {
            status = status;
            completed_at = some at;
            error_message = some (message reason);
          })
          [] (among, refl) (λ r. (refl, refl)) (λ p. absurd (bad p)) tt refl refl
          (sym (append-nil x.log))

-- The steps that are left get one status.
pub settle_remaining-Remaining :
    (steps : List PipelineStep) (Ev : Event → Type 0) (at : ℕ) (ss : List PipelineStep)
    (status : StepStatus) (reason : Reason) (x : Execution)
    → (status ≡ passed → ⊥)
    → All (λ s. any (step_is s.id) steps ≡ true) ss
    → Remaining steps status Ev x (settle_remaining at ss status reason x)
unfolding settle_remaining
settle_remaining-Remaining steps Ev at [] status reason x bad h = same x x refl refl refl
settle_remaining-Remaining steps Ev at (s ∷ ss) status reason x bad (among, h) =
    after (settle_step-Remaining steps Ev at s status reason x bad among) (
      settle_remaining-Remaining steps Ev at ss status reason (settle_step at s status reason x) bad
        h)

module _ (at : ℕ) (status : StepStatus) (reason : Reason)
    (closes : is_open (some status) ≡ false) where
  closed_put :
      (s : PipelineStep) (x : Execution) (k : String)
      → (str_eq s.id k ≡ true) ⊎ (is_open (get k x.statuses) ≡ false)
      → is_open (get k (put s.id status x.statuses)) ≡ false
  closed_put s x k h = elim (Bool-cases (str_eq s.id k)) [
    | inl hit ↦ rw (get-put k s.id status x.statuses, hit) closes
    | inr miss ↦
        rw (get-put k s.id status x.statuses, miss)
          (elim h [ inl hit ↦ absurd (cc) | inr old ↦ old ])
  ]

  settle_step-closed :
      (s : PipelineStep) (x : Execution) (k : String)
      → (s.id ≡ k) ⊎ (is_open (get k x.statuses) ≡ false)
      → is_open (get k (settle_step at s status reason x).statuses) ≡ false
  unfolding settle_step
  settle_step-closed s x k h = elim (Bool-cases (is_open (get s.id x.statuses))) [
    | inl e ↦ rw e (
        closed_put s x k
          (elim h [ inl here ↦ inl ((str_eq_iff s.id k).1 here) | inr old ↦ inr old ]))
    | inr e ↦ rw e (elim h [
      | inl here ↦ subst (λ j. is_open (get j x.statuses) ≡ false) here e
      | inr old ↦ old
    ])
  ]

  closed_stays :
      (ss : List PipelineStep) (x : Execution) (k : String)
      → is_open (get k x.statuses) ≡ false
      → is_open (get k (settle_remaining at ss status reason x).statuses) ≡ false
  unfolding settle_remaining
  closed_stays [] x k h = h
  closed_stays (s ∷ ss) x k h =
      closed_stays ss (settle_step at s status reason x) k (settle_step-closed s x k (inr h))

  -- None of them is open any more.
  pub settle_remaining-closed :
      (ss : List PipelineStep) (x : Execution) (k : String)
      → any (step_is k) ss ≡ true
      → is_open (get k (settle_remaining at ss status reason x).statuses) ≡ false
  unfolding settle_remaining
  settle_remaining-closed [] x k h = absurd (cc)
  settle_remaining-closed (s ∷ ss) x k h = elim (str_eq-cases s.id k) [
    | inr other ↦ settle_remaining-closed ss (settle_step at s status reason x) k (rw other at h)
    | inl here ↦
        closed_stays ss (settle_step at s status reason x) k (settle_step-closed s x k (inl here))
  ]
