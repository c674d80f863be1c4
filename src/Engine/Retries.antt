-- ===== src/Engine/Retries.antt =====
-- The retries of a batch end: every round takes a retry that some step has left.
use asterim.Prelude.{
  All-mono, ℕ, zero, suc, ◌+◌, ◌-◌, ◌≤◌, ◌<◌, ◌≡◌, ◌≢◌, refl, sym, ap, ◌∙◌, subst, arith, ◌⊎◌, inl,
  inr, String, Bool, true, false, not, ◌&&◌, Option, none, some, List, [], ◌∷◌, if◌then◌else◌,
  leb→le, str_eq, str_eq_refl, str_eq-cases, Bool-cases, Option-cases, get_or, Map, get, put,
  get-put, one, All,
}
use asterim.Pipeline.Graph.{PipelineStep, ids_of}
use asterim.Pipeline.Prepared.{times}
use asterim.Engine.Types.{Fleet, Provision, provisioned, unprovisioned, World, Execution}
use asterim.Engine.Dispatch.{
  is_completed, attempts_of, start_step, start_each, start_batch, Prepared, prepare_answered,
  prepare_each, provision_step_worktree, Outcomes, delegate_prepared, dispatch, retrying, may_retry,
  wait_before_retry, replace_each, retry, retry_waited, retry_batch, retry_unless, retry_fuel,
  dispatch_with_retries,
}
use asterim.Engine.Moves.{steps_of, dispatch-steps, replace_each-steps}

-- How often a step has been dispatched.
abbrev pub dispatched : String → Execution → ℕ
dispatched k x = get_or (get k x.attempts) 0

get_or-put :
    (k id : String) (n : ℕ) (m : Map ℕ)
    → get_or (get k (put id n m)) 0 ≡ (if str_eq id k then n else get_or (get k m) 0)
get_or-put k id n m = elim (Bool-cases (str_eq id k)) [
  | inl e ↦ rw (get-put k id n m, e) refl
  | inr e ↦ rw (get-put k id n m, e) refl
]

pub start_each-dispatched :
    (k : String) (at : ℕ) (ss : List PipelineStep) (x : Execution)
    → dispatched k (start_each at ss x) ≡ dispatched k x + times k (ids_of ss)
unfolding start_each
start_each-dispatched k at [] x = omega arith
start_each-dispatched k at (s ∷ ss) x =
    let y : Execution = start_step at s x in
    let rest = start_each-dispatched k at ss y in
    let own : dispatched k y ≡ (if str_eq s.id k then suc (dispatched s.id x) else dispatched k x) =
      get_or-put k s.id (suc (dispatched s.id x)) x.attempts in
    elim (str_eq-cases s.id k) [
      | inl here ↦
          let hit : str_eq s.id k ≡ true = rw here (str_eq_refl k) in
          let same_step : dispatched s.id x ≡ dispatched k x = ap (λ j. dispatched j x) here in
          omega (arith, rest, rw hit at own, same_step, ap one hit)
      | inr other ↦ omega (arith, rest, rw other at own, ap one other)
    ]

module _ (w : World) (fleet : Option Fleet) (steps : List PipelineStep) where
  prepare_answered-attempts :
      (o : Option Provision) (s : PipelineStep) (p : Prepared)
      → (prepare_answered w fleet steps o s p).execution.attempts ≡ p.execution.attempts
  unfolding prepare_answered
  prepare_answered-attempts none s p = refl
  prepare_answered-attempts (some (provisioned t)) s p = refl
  prepare_answered-attempts (some (unprovisioned why)) s p = refl

  prepare_each-attempts :
      (ss : List PipelineStep) (p : Prepared)
      → (prepare_each w fleet steps ss p).execution.attempts ≡ p.execution.attempts
  unfolding prepare_each
  prepare_each-attempts [] p = refl
  prepare_each-attempts (s ∷ ss) p =
      let o = provision_step_worktree w fleet steps (suc p.execution.tick) s fleet in
      prepare_each-attempts ss (prepare_answered w fleet steps o s p)
      ∙ prepare_answered-attempts o s p

  pub delegate_prepared-attempts :
      (able ss : List PipelineStep) (p : Prepared)
      → (delegate_prepared w fleet steps able ss p).0.attempts ≡ p.execution.attempts
  unfolding delegate_prepared
  delegate_prepared-attempts [] ss p = refl
  delegate_prepared-attempts (s ∷ able) ss p = refl

  pub dispatch-dispatched :
      (k : String) (ss : List PipelineStep) (x : Execution)
      → dispatched k (dispatch w fleet steps ss x).0 ≡ dispatched k x + times k (ids_of ss)
  unfolding dispatch start_batch
  dispatch-dispatched k ss x =
      let p : Prepared = record {
        execution = start_batch (w.now x.tick) ss x;
        failures = [];
        dispatchable = [];
      } in
      let q : Prepared = prepare_each w fleet steps ss p in
      ap (λ m. get_or (get k m) 0)
        (delegate_prepared-attempts q.dispatchable ss q ∙ prepare_each-attempts ss p)
      ∙ start_each-dispatched k (w.now x.tick) ss x

  -- The dispatches that a step has left, and those of a batch.
  abbrev left : Execution → PipelineStep → ℕ
  left x s = suc (get_or s.retries 0) - dispatched s.id x

  abbrev total : Execution → List PipelineStep → ℕ
  total x [] = 0
  total x (s ∷ ss) = left x s + total x ss

  abbrev pub Begun : Execution → List PipelineStep → Type 0
  Begun x ss = All (λ s. 1 ≤ dispatched s.id x) ss

  pub attempts_of_begun :
      (s : PipelineStep) (x : Execution)
      → 1 ≤ dispatched s.id x
      → attempts_of s 1 x ≡ dispatched s.id x
  attempts_of_begun s x h = elim (Option-cases (get s.id x.attempts)) [
    | inl e ↦ absurd (omega (arith, ap (λ o. get_or o 0) e))
    | inr (n, e) ↦ rw e refl
  ]

  -- More dispatches leave less.
  total-le :
      (x y : Execution) (ss : List PipelineStep)
      → ((k : String) → dispatched k x ≤ dispatched k y)
      → total y ss ≤ total x ss
  total-le x y [] h = omega arith
  total-le x y (s ∷ ss) h = omega (arith, h s.id, total-le x y ss h)

  -- Whoever is tried again has one dispatch less left.
  total-lt :
      (x y : Execution) (os : Outcomes)
      → Begun x (steps_of os)
      → ((k : String) → dispatched k x ≤ dispatched k y)
      → All (λ s. dispatched s.id x < dispatched s.id y) (retrying w fleet steps x os)
      → (retrying w fleet steps x os ≡ []) ⊎ (total y (steps_of os) < total x (steps_of os))
  total-lt x y [] begun grown tried = inl refl
  total-lt x y (o ∷ os) (first, begun) grown tried =
      elim (Bool-cases (may_retry w fleet steps x o)) [
        | inr settled ↦ elim (total-lt x y os begun grown (rw settled at tried)) [
          | inl nobody ↦ inl (rw settled nobody)
          | inr less ↦ inr (omega (arith, grown o.0.id, less))
        ]
        | inl open_still ↦
            let (strict, rest) = split open_still in
            let few : dispatched o.0.id x ≤ get_or o.0.retries 0 = omega (
              arith,
              attempts_of_begun o.0 x first,
              leb→le (attempts_of o.0 1 x) (get_or o.0.retries 0)
                  (second_true (not (is_completed o.1)) _ open_still),
            ) in
            inr (omega (arith, strict, few, total-le x y (steps_of os) grown))
      ]
    where
      second_true : (a b : Bool) → a && b ≡ true → b ≡ true
      second_true true b h = h
      second_true false b h = absurd (cc)

      split :
          may_retry w fleet steps x o ≡ true
          → (dispatched o.0.id x < dispatched o.0.id y)
            × All (λ s. dispatched s.id x < dispatched s.id y) (retrying w fleet steps x os)
      split e = rw e at tried

  pub stands : (ss : List PipelineStep) → All (λ s. 1 ≤ times s.id (ids_of ss)) ss
  stands [] = tt
  stands (s ∷ ss) = (omega (arith, ap one (str_eq_refl s.id)), weaken ss (stands ss))
    where
      weaken :
          (ts : List PipelineStep)
          → All (λ t. 1 ≤ times t.id (ids_of ss)) ts
          → All (λ t. 1 ≤ times t.id (ids_of (s ∷ ss))) ts
      weaken [] h = tt
      weaken (t ∷ ts) (first, h) = (omega (arith, first), weaken ts h)

  abbrev pub Ends : Option (Execution × Outcomes) → Type 0
  Ends r = (y : Execution) × ((os : Outcomes) × (r ≡ some (y, os)))

  module _ (again : Execution → Outcomes → Option (Execution × Outcomes)) (fuel : ℕ)
      (next : (x : Execution) (os : Outcomes)
        → Begun x (steps_of os)
        → total x (steps_of os) < fuel
        → Ends (again x os)) where
    waited-Ends :
        (b : Bool) (x : Execution) (os : Outcomes)
        → Begun x (steps_of os)
        → total x (steps_of os) < suc fuel
        → (retrying w fleet steps x os ≢ [])
        → (tick : ℕ)
        → Ends (
            retry_waited w fleet steps again
              (retrying w fleet steps x os)
              b
              (record x { tick = tick })
              os)
    waited-Ends false x os begun small some_try tick = (record x { tick = tick }, (os, refl))
    waited-Ends true x os begun small some_try tick =
        let ss : List PipelineStep = retrying w fleet steps x os in
        let retried = dispatch w fleet steps ss (record x { tick = tick }) in
        let os' : Outcomes = replace_each w fleet steps retried.1 os in
        let y : Execution = retried.0 in
        let e : steps_of os' ≡ steps_of os = replace_each-steps w fleet steps retried.1 os in
        let grown = λ (k : String). dispatch-dispatched k ss (record x { tick = tick }) in
        let fewer =
          total-lt x y os begun (λ k. omega (arith, grown k))
            (All-mono (λ s. 1 ≤ times s.id (ids_of ss)) (λ s. dispatched s.id x < dispatched s.id y)
              ss (λ s there. omega (arith, grown s.id, there)) (stands ss)) in
        next y os'
          (subst (Begun y) (sym e) (
            All-mono (λ s. 1 ≤ dispatched s.id x) (λ s. 1 ≤ dispatched s.id y) (steps_of os)
              (λ s one_before. omega (arith, grown s.id, one_before)) begun))
          (subst (λ ts. total y ts < fuel) (sym e)
            (elim fewer [
              | inl nobody ↦ absurd (some_try nobody)
              | inr less ↦ omega (arith, less, small)
            ]))

    batch-Ends :
        (ss : List PipelineStep) (x : Execution) (os : Outcomes)
        → ss ≡ retrying w fleet steps x os
        → Begun x (steps_of os)
        → total x (steps_of os) < suc fuel
        → Ends (retry_batch w fleet steps again ss x os)
    batch-Ends [] x os e begun small = (x, (os, refl))
    batch-Ends (s ∷ ss) x os e begun small =
        let waited = wait_before_retry w fleet steps (s ∷ ss) x.tick in
        subst
          (λ ts.
            Ends (retry_waited w fleet steps again ts waited.0 (record x { tick = waited.1 }) os))
          (sym e) (waited-Ends waited.0 x os begun small (λ nobody. absurd (cc)) waited.1)

    unless-Ends :
        (why : Option String) (x : Execution) (os : Outcomes)
        → Begun x (steps_of os)
        → total x (steps_of os) < suc fuel
        → Ends (retry_unless w fleet steps again why x os)
    unless-Ends (some why) x os begun small = (x, (os, refl))
    unless-Ends none x os begun small =
        batch-Ends (retrying w fleet steps x os) x os refl begun small

  retry-Ends :
      (fuel : ℕ) (x : Execution) (os : Outcomes)
      → Begun x (steps_of os)
      → total x (steps_of os) < fuel
      → Ends (retry w fleet steps fuel x os)
  unfolding retry
  retry-Ends zero x os begun small = absurd (omega arith)
  retry-Ends (suc fuel) x os begun small =
      unless-Ends (retry w fleet steps fuel) fuel (λ y os' b l. retry-Ends fuel y os' b l)
        (w.cancel_reason x.tick) x os begun small

  total-fuel : (x : Execution) (ss : List PipelineStep) → total x ss < retry_fuel w fleet steps ss
  total-fuel x [] = omega arith
  total-fuel x (s ∷ ss) = omega (arith, total-fuel x ss)

  -- The fuel of the retries is enough.
  pub dispatch_with_retries-Ends :
      (batch : List PipelineStep) (x : Execution)
      → Ends (dispatch_with_retries w fleet steps batch x)
  unfolding dispatch_with_retries
  dispatch_with_retries-Ends batch x =
      let first = dispatch w fleet steps batch x in
      let e : steps_of first.1 ≡ batch = dispatch-steps w fleet steps batch x in
      retry-Ends (retry_fuel w fleet steps batch) first.0 first.1
        (subst (Begun first.0) (sym e) (
          All-mono (λ s. 1 ≤ times s.id (ids_of batch)) (λ s. 1 ≤ dispatched s.id first.0) batch
            (λ s there. omega (arith, dispatch-dispatched s.id batch x, there)) (stands batch)))
        (subst (λ ts. total first.0 ts < retry_fuel w fleet steps batch) (sym e)
          (total-fuel first.0 batch))
