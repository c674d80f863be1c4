-- ===== src/Engine/Rooms.antt =====
-- A batch of steps that were never dispatched has room, and what recording and settling leave alone.
use asterim.Prelude.{
  ℕ, zero, suc, ◌+◌, ◌≤◌, ◌≡◌, refl, sym, ap, ◌∙◌, subst, arith, inl, inr, String, Bool, true,
  false, ◌||◌, Option, none, some, List, [], ◌∷◌, ◌++◌, get_or, str_eq, str_eq_iff, str_eq-cases,
  Bool-cases, any, keep, take, includes, includes-append, All, get, one,
}
use asterim.Pipeline.Graph.{
  StepStatus, pending, passed, skipped, cancelled, PipelineStep, ids_of, is_ready,
  ready_pipeline_step_ids,
}
use asterim.Pipeline.Prepared.{times}
use asterim.Engine.Types.{
  Fleet, Reason, World, Execution, pipeline_max_parallel_steps, stopped, upstream_did_not_pass,
  step_did_not_pass,
}
use asterim.Engine.Dispatch.{Outcomes, find_step}
use asterim.Engine.Loop.{
  is_open, settle_step, settle_remaining, finish, record_outcome, record_outcomes, first_failed,
  find_steps, After, over, on, after_failed, after_batch, next_batch,
}
use asterim.Engine.Changes.{step_is}
use asterim.Engine.Retries.{dispatched}
use asterim.Engine.Batches.{settle_remaining-Remaining}
use asterim.Engine.Ready.{Staged, Staged-found, IsNext, own_steps}
use asterim.Engine.Waiting.{AtTop, ready_waits}
use asterim.Engine.Attempts.{limit, Within, IsWithin, Room, Change-Within}

-- Recording and settling dispatch nothing.
pub record_outcomes-attempts :
    (w : World) (why : Option String) (os : Outcomes) (x : Execution)
    → (record_outcomes w why os x).attempts ≡ x.attempts
unfolding record_outcomes record_outcome
record_outcomes-attempts w why [] x = refl
record_outcomes-attempts w why ((s, r) ∷ os) x =
    record_outcomes-attempts w why os (record_outcome w why (s, r) x)

settle_remaining-attempts :
    (at : ℕ) (ss : List PipelineStep) (status : StepStatus) (reason : Reason) (x : Execution)
    → (settle_remaining at ss status reason x).attempts ≡ x.attempts
unfolding settle_remaining settle_step
settle_remaining-attempts at [] status reason x = refl
settle_remaining-attempts at (s ∷ ss) status reason x =
    settle_remaining-attempts at ss status reason (settle_step at s status reason x) ∙ own
  where
    own : (settle_step at s status reason x).attempts ≡ x.attempts
    own = elim (Bool-cases (is_open (get s.id x.statuses))) [
      | inl e ↦ rw e refl
      | inr e ↦ rw e refl
    ]

-- How often a step of the batch stands in it.
keep-times :
    (p : PipelineStep → Bool) (k : String) (ss : List PipelineStep)
    → times k (ids_of (keep p ss)) ≤ times k (ids_of ss)
keep-times p k [] = omega arith
keep-times p k (s ∷ ss) = elim (Bool-cases (p s)) [
  | inl e ↦ rw e (omega (arith, keep-times p k ss))
  | inr e ↦ rw e (omega (arith, keep-times p k ss))
]

find_steps-times :
    (k : String) (n : ℕ) (steps ts : List PipelineStep)
    → All (λ t. find_step t.id steps ≡ some t) ts
    → times k (ids_of (find_steps (take n (ids_of ts)) steps)) ≤ times k (ids_of ts)
unfolding find_steps
find_steps-times k zero steps ts h = omega arith
find_steps-times k (suc n) steps [] h = omega arith
find_steps-times k (suc n) steps (t ∷ ts) (found, h) =
    rw found (omega (arith, find_steps-times k n steps ts h))

Staged-times :
    (before : List String) (ss : List PipelineStep) (k : String)
    → Staged before ss
    → times k (ids_of ss) + one (includes k before) ≤ 1
Staged-times before [] k h = elim (Bool-cases (includes k before)) [
  | inl e ↦ rw e (omega arith)
  | inr e ↦ rw e (omega arith)
]
Staged-times before (s ∷ ss) k (deps, fresh, h) = elim (str_eq-cases s.id k) [
  | inr other ↦ omega (
    arith,
    Staged-times (before ++ s.id ∷ []) ss k h,
    ap one (includes-append k before (s.id ∷ [])),
    weaker (includes k before) (includes k (s.id ∷ [])),
    ap one other,
  )
  | inl here ↦
      let hit : str_eq s.id k ≡ true = (str_eq_iff s.id k).1 here in
      let absent : includes k before ≡ false = subst (λ j. includes j before ≡ false) here fresh in
      let last : includes k (s.id ∷ []) ≡ true = rw ((str_eq_iff k s.id).1 (sym here)) refl in
      omega (
        arith,
        Staged-times (before ++ s.id ∷ []) ss k h,
        ap one (includes-append k before (s.id ∷ [])),
        at_last (includes k before) (includes k (s.id ∷ [])) last,
        ap one hit,
        ap one absent,
      )
]
  where
    weaker : (a b : Bool) → one a ≤ one (a || b)
    weaker true b = omega arith
    weaker false b = omega arith

    at_last : (a b : Bool) → b ≡ true → one (a || b) ≡ 1
    at_last true b e = refl
    at_last false b e = ap one e

pub none_times :
    (k : String) (ss : List PipelineStep) → any (step_is k) ss ≡ false → times k (ids_of ss) ≡ 0
none_times k [] e = refl
none_times k (s ∷ ss) e = elim (Bool-cases (str_eq s.id k)) [
  | inl hit ↦ absurd (let b : true ≡ false = rw hit at e in cc)
  | inr miss ↦ omega (arith, none_times k ss (rw miss at e), ap one miss)
]

limit-found :
    (steps : List PipelineStep) (k : String) (t : PipelineStep)
    → find_step k steps ≡ some t
    → limit steps k ≡ suc (get_or t.retries 0)
limit-found steps k t e = ap (λ f. elim f [ none ↦ 0 | some s ↦ suc (get_or s.retries 0) ]) e

-- At the top of the loop no pending step has been dispatched.
abbrev pub Idle : List PipelineStep → Execution → Type 0
Idle steps x =
    IsWithin steps x × ((k : String) → get k x.statuses ≡ some pending → dispatched k x ≡ 0)

abbrev pub Stays : List PipelineStep → After → Type 0
Stays steps (over y) = IsWithin steps y
Stays steps (on y) = Idle steps y

pub IsWithin-same :
    (steps : List PipelineStep) (x y : Execution)
    → y.attempts ≡ x.attempts
    → All (Within steps) y.log
    → IsWithin steps x
    → IsWithin steps y
IsWithin-same steps x y e log (bounded, h) =
    (λ k. subst (λ m. get_or (get k m) 0 ≤ limit steps k) (sym e) (bounded k), log)

pub settled-IsWithin :
    (steps : List PipelineStep) (at : ℕ) (status : StepStatus) (reason why : Reason) (x : Execution)
    → (status ≡ passed → ⊥)
    → IsWithin steps x
    → IsWithin steps (finish at (some why) (settle_remaining at steps status reason x))
unfolding finish
settled-IsWithin steps at status reason why x unpassed within =
    let y : Execution = settle_remaining at steps status reason x in
    IsWithin-same steps x (finish at (some why) y)
      (settle_remaining-attempts at steps status reason x)
      (Change-Within steps x y
        (settle_remaining-Remaining steps (Within steps) at steps status reason x unpassed
          (own_steps steps))
        within.1)
      within

module _ (w : World) (fleet : Option Fleet) (steps : List PipelineStep)
    (staged : Staged [] steps) where
  pub next_batch-times :
      (k : String) (x : Execution) → times k (ids_of (next_batch w fleet steps x)) ≤ 1
  unfolding ready_pipeline_step_ids
  next_batch-times k x =
      let ready : List PipelineStep = keep (is_ready x.statuses) steps in
      omega (
        arith,
        find_steps-times k pipeline_max_parallel_steps steps ready
            (kept steps (Staged-found [] steps staged)),
        keep-times (is_ready x.statuses) k steps,
        Staged-times [] steps k staged,
      )
    where
      kept :
          (ss : List PipelineStep)
          → All (λ s. find_step s.id steps ≡ some s) ss
          → All (λ s. find_step s.id steps ≡ some s) (keep (is_ready x.statuses) ss)
      kept [] h = tt
      kept (s ∷ ss) (first, h) = elim (Bool-cases (is_ready x.statuses s)) [
        | inl e ↦ rw e (first, kept ss h)
        | inr e ↦ rw e (kept ss h)
      ]

  -- A batch of steps that were never dispatched has room.
  pub batch-Room :
      (x : Execution) (batch : List PipelineStep)
      → AtTop steps x
      → Idle steps x
      → All (IsNext steps x.statuses) batch
      → ((k : String) → times k (ids_of batch) ≤ 1)
      → Room steps batch x
  batch-Room x batch top (within, idle) next once k = elim (Bool-cases (any (step_is k) batch)) [
    | inr outside ↦ omega (arith, within.0 k, none_times k batch outside)
    | inl inside ↦
        let (t, is_found, waits) = member batch next inside in
        omega (arith, once k, idle k waits, limit-found steps k t is_found)
  ]
    where
      member :
          (ts : List PipelineStep)
          → All (IsNext steps x.statuses) ts
          → any (step_is k) ts ≡ true
          → (t : PipelineStep) × (find_step k steps ≡ some t) × (get k x.statuses ≡ some pending)
      member [] h e = absurd (cc)
      member (t ∷ ts) (first, h) e = elim (str_eq-cases t.id k) [
        | inr other ↦ member ts h (rw other at e)
        | inl here ↦ (
          t,
          subst (λ j. find_step j steps ≡ some t) here first.1,
          subst (λ j. get j x.statuses ≡ some pending) here (ready_waits steps x t top first),
        )
      ]

  pub after_batch-Stays :
      (why : Option String) (batch : List PipelineStep) (z : Execution)
      → IsWithin steps z
      → (first_failed z.statuses batch ≡ none
          → (k : String) → get k z.statuses ≡ some pending
          → dispatched k z ≡ 0)
      → Stays steps (after_batch w fleet steps batch why z)
  unfolding after_batch
  after_batch-Stays (some why) batch z within idle =
      settled-IsWithin steps (w.now z.tick) cancelled (stopped why) (stopped why) z
        (λ e. absurd (cc)) within
  after_batch-Stays none batch z within idle = by_failed (first_failed z.statuses batch) refl
    where
      by_failed :
          (o : Option String)
          → first_failed z.statuses batch ≡ o
          → Stays steps (after_failed w fleet steps o z)
      by_failed (some id) e =
          settled-IsWithin steps (w.now z.tick) skipped upstream_did_not_pass (step_did_not_pass id)
            z (λ p. absurd (cc)) within
      by_failed none e = (within, idle e)
