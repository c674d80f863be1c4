-- ===== src/Engine/Moves.antt =====
-- What a dispatch, its retries and the recording of a batch change.
use asterim.Prelude.{
  All-mono, ℕ, zero, suc, ◌≡◌, refl, sym, ap, ◌∙◌, subst, inl, inr, String, Bool, true, false,
  Option, none, some, List, [], ◌∷◌, map, str_eq, Bool-cases, any, All, Map,
}
use asterim.Pipeline.Graph.{running, PipelineStep}
use asterim.Engine.Types.{
  DelegationResult, Fleet, Event, step_started, Provision, provisioned, unprovisioned, World,
  Execution,
}
use asterim.Engine.Dispatch.{
  attempts_of, start_step, start_each, start_batch, Prepared, prepare_answered, prepare_each,
  provision_step_worktree, Outcomes, answer, delegate_prepared, dispatch, retrying, may_retry,
  wait_before_retry, replace_outcome, replace_each, retry, retry_fuel, retry_waited, retry_batch,
  retry_unless, dispatch_with_retries,
}
use asterim.Engine.Changes.{step_is, Change, same, write, after}

abbrev pub steps_of : Outcomes → List PipelineStep
steps_of os = map (λ o. o.0) os

-- A dispatch lets the steps of its batch run, and says that they start.
abbrev pub Started : List PipelineStep → (Event → Type 0) → Execution → Execution → Type 0
Started batch Ev x y = Change (λ id v. (any (step_is id) batch ≡ true) × (v ≡ running)) Ev x y

abbrev pub MayStart : (Event → Type 0) → PipelineStep → Type 0
MayStart Ev s = (n : ℕ) → Ev (step_started s.id n)

-- The steps are of the batch, and may start.
abbrev pub Startable : List PipelineStep → (Event → Type 0) → List PipelineStep → Type 0
Startable batch Ev ss = All (λ s. (any (step_is s.id) batch ≡ true) × MayStart Ev s) ss

-- Where every event is allowed, every step may start.
pub Startable-freely :
    (batch ss : List PipelineStep)
    → All (λ s. any (step_is s.id) batch ≡ true) ss
    → Startable batch (λ e. Unit {0}) ss
Startable-freely batch ss h =
    All-mono (λ s. any (step_is s.id) batch ≡ true)
      (λ s. (any (step_is s.id) batch ≡ true) × MayStart (λ e. Unit {0}) s) ss
      (λ s own. (own, λ n. tt)) h

module _ (batch : List PipelineStep) (Ev : Event → Type 0) where
  start_each-Started :
      (at : ℕ) (ss : List PipelineStep) (x : Execution)
      → Startable batch Ev ss
      → Started batch Ev x (start_each at ss x)
  unfolding start_each
  start_each-Started at [] x h = same x x refl refl refl
  start_each-Started at (s ∷ ss) x ((among, may), h) =
      after
        (write x (start_step at s x) s.id running
          (λ r. record r {
            status = running;
            started_at = some at;
            attempts = some (suc (attempts_of s 0 x));
          })
          (step_started s.id (suc (attempts_of s 0 x)) ∷ []) (among, refl) (λ r. (refl, refl))
          (λ bad. absurd (cc)) (may (suc (attempts_of s 0 x)), tt) refl refl refl)
        (start_each-Started at ss (start_step at s x) h)

  module _ (w : World) (fleet : Option Fleet) (steps : List PipelineStep) where
    prepare_answered-Started :
        (o : Option Provision) (s : PipelineStep) (p : Prepared)
        → Started batch Ev p.execution (prepare_answered w fleet steps o s p).execution
    unfolding prepare_answered
    prepare_answered-Started none s p = same _ _ refl refl refl
    prepare_answered-Started (some (provisioned t)) s p = same _ _ refl refl refl
    prepare_answered-Started (some (unprovisioned why)) s p = same _ _ refl refl refl

    pub prepare_each-Started :
        (ss : List PipelineStep) (p : Prepared)
        → Started batch Ev p.execution (prepare_each w fleet steps ss p).execution
    unfolding prepare_each
    prepare_each-Started [] p = same _ _ refl refl refl
    prepare_each-Started (s ∷ ss) p =
        let o = provision_step_worktree w fleet steps (suc p.execution.tick) s fleet in
        after (prepare_answered-Started o s p)
          (prepare_each-Started ss (prepare_answered w fleet steps o s p))

    pub delegate_prepared-Started :
        (able ss : List PipelineStep) (p : Prepared)
        → Started batch Ev p.execution (delegate_prepared w fleet steps able ss p).0
    unfolding delegate_prepared
    delegate_prepared-Started [] ss p = same _ _ refl refl refl
    delegate_prepared-Started (s ∷ able) ss p = same _ _ refl refl refl

    pub dispatch-Started :
        (ss : List PipelineStep) (x : Execution)
        → Startable batch Ev ss
        → Started batch Ev x (dispatch w fleet steps ss x).0
    unfolding dispatch start_batch
    dispatch-Started ss x h =
        let p : Prepared = record {
          execution = start_batch (w.now x.tick) ss x;
          failures = [];
          dispatchable = [];
        } in
        let q : Prepared = prepare_each w fleet steps ss p in
        after (start_each-Started (w.now x.tick) ss x h) (
          after (same (start_each (w.now x.tick) ss x) p.execution refl refl refl)
            (after (prepare_each-Started ss p) (delegate_prepared-Started q.dispatchable ss q)))

-- The answer of a dispatch has the steps of its batch.
answer-steps :
    (failures outcomes : Map DelegationResult) (ss : List PipelineStep)
    → steps_of (answer failures outcomes ss) ≡ ss
unfolding answer
answer-steps failures outcomes [] = refl
answer-steps failures outcomes (s ∷ ss) = ap (λ k. s ∷ k) (answer-steps failures outcomes ss)

module _ (w : World) (fleet : Option Fleet) (steps : List PipelineStep) where
  delegate_prepared-steps :
      (able ss : List PipelineStep) (p : Prepared)
      → steps_of (delegate_prepared w fleet steps able ss p).1 ≡ ss
  unfolding delegate_prepared
  delegate_prepared-steps [] ss p = answer-steps p.failures [] ss
  delegate_prepared-steps (s ∷ able) ss p = answer-steps p.failures _ ss

  pub dispatch-steps :
      (ss : List PipelineStep) (x : Execution) → steps_of (dispatch w fleet steps ss x).1 ≡ ss
  unfolding dispatch
  dispatch-steps ss x =
      let q : Prepared = prepare_each w fleet steps ss (record {
        execution = start_batch (w.now x.tick) ss x;
        failures = [];
        dispatchable = [];
      }) in
      delegate_prepared-steps q.dispatchable ss q

  replace_outcome-steps :
      (o : PipelineStep × Option DelegationResult) (os : Outcomes)
      → steps_of (replace_outcome w fleet steps o os) ≡ steps_of os
  unfolding replace_outcome
  replace_outcome-steps o [] = refl
  replace_outcome-steps o ((s, r) ∷ os) = elim (Bool-cases (str_eq s.id o.0.id)) [
    | inl e ↦ rw e refl
    | inr e ↦ rw e (ap (λ k. s ∷ k) (replace_outcome-steps o os))
  ]

  pub replace_each-steps :
      (more os : Outcomes) → steps_of (replace_each w fleet steps more os) ≡ steps_of os
  unfolding replace_each
  replace_each-steps [] os = refl
  replace_each-steps (o ∷ more) os =
      replace_each-steps more (replace_outcome w fleet steps o os) ∙ replace_outcome-steps o os

  pub retrying-All :
      (P : PipelineStep → Type 0) (x : Execution) (os : Outcomes)
      → All P (steps_of os)
      → All P (retrying w fleet steps x os)
  retrying-All P x [] h = tt
  retrying-All P x (o ∷ os) (first, h) = elim (Bool-cases (may_retry w fleet steps x o)) [
    | inl e ↦ rw e (first, retrying-All P x os h)
    | inr e ↦ rw e (retrying-All P x os h)
  ]

  module _ (batch : List PipelineStep) (Ev : Event → Type 0) where
    -- Rounds of retries start steps of the batch again.
    abbrev pub Rounds : Execution → Outcomes → Option (Execution × Outcomes) → Type 0
    Rounds x os none = Unit
    Rounds x os (some (y, os')) = Started batch Ev x y × (steps_of os' ≡ steps_of os)

    Rounds-after :
        (x y : Execution) (os os' : Outcomes) (r : Option (Execution × Outcomes))
        → Started batch Ev x y
        → steps_of os' ≡ steps_of os
        → Rounds y os' r
        → Rounds x os r
    Rounds-after x y os os' none c e h = tt
    Rounds-after x y os os' (some (z, os'')) c e (d, f) = (after c d, f ∙ e)

    -- What a round gives as long as the next one does.
    module _ (again : Execution → Outcomes → Option (Execution × Outcomes))
        (next : (x : Execution) (os : Outcomes)
          → Startable batch Ev (steps_of os)
          → Rounds x os (again x os)) where
      waited-Rounds :
          (ss : List PipelineStep) (b : Bool) (x : Execution) (os : Outcomes)
          → Startable batch Ev ss
          → Startable batch Ev (steps_of os)
          → Rounds x os (retry_waited w fleet steps again ss b x os)
      waited-Rounds ss false x os may all_may = (same x x refl refl refl, refl)
      waited-Rounds ss true x os may all_may =
          let retried = dispatch w fleet steps ss x in
          let os' : Outcomes = replace_each w fleet steps retried.1 os in
          let e : steps_of os' ≡ steps_of os = replace_each-steps retried.1 os in
          Rounds-after x retried.0 os os' (again retried.0 os')
            (dispatch-Started batch Ev w fleet steps ss x may) e
            (next retried.0 os' (subst (Startable batch Ev) (sym e) all_may))

      batch-Rounds :
          (ss : List PipelineStep) (x : Execution) (os : Outcomes)
          → Startable batch Ev ss
          → Startable batch Ev (steps_of os)
          → Rounds x os (retry_batch w fleet steps again ss x os)
      batch-Rounds [] x os may all_may = (same x x refl refl refl, refl)
      batch-Rounds (s ∷ ss) x os may all_may =
          let waited = wait_before_retry w fleet steps (s ∷ ss) x.tick in
          let y : Execution = record x { tick = waited.1 } in
          Rounds-after x y os os (retry_waited w fleet steps again (s ∷ ss) waited.0 y os)
            (same x y refl refl refl) refl (waited-Rounds (s ∷ ss) waited.0 y os may all_may)

      unless-Rounds :
          (why : Option String) (x : Execution) (os : Outcomes)
          → Startable batch Ev (steps_of os)
          → Rounds x os (retry_unless w fleet steps again why x os)
      unless-Rounds (some why) x os may = (same x x refl refl refl, refl)
      unless-Rounds none x os may =
          batch-Rounds (retrying w fleet steps x os) x os
            (retrying-All (λ s. (any (step_is s.id) batch ≡ true) × MayStart Ev s) x os may) may

    retry-Rounds :
        (fuel : ℕ) (x : Execution) (os : Outcomes)
        → Startable batch Ev (steps_of os)
        → Rounds x os (retry w fleet steps fuel x os)
    unfolding retry
    retry-Rounds zero x os h = tt
    retry-Rounds (suc fuel) x os h =
        unless-Rounds (retry w fleet steps fuel) (λ y os' may. retry-Rounds fuel y os' may)
          (w.cancel_reason x.tick) x os h

  -- A batch that is dispatched, with its retries, starts its own steps and answers for them.
  pub dispatch_with_retries-Started :
      (batch : List PipelineStep) (Ev : Event → Type 0) (x y : Execution) (os : Outcomes)
      → Startable batch Ev batch
      → dispatch_with_retries w fleet steps batch x ≡ some (y, os)
      → Started batch Ev x y × (steps_of os ≡ batch)
  unfolding dispatch_with_retries
  dispatch_with_retries-Started batch Ev x y os may e =
      let first = dispatch w fleet steps batch x in
      let e₁ : steps_of first.1 ≡ batch = dispatch-steps batch x in
      let rounds =
        retry-Rounds batch Ev (retry_fuel w fleet steps batch) first.0 first.1
          (subst (Startable batch Ev) (sym e₁) may) in
      let (c, e₂) = subst (Rounds batch Ev first.0 first.1) e rounds in
      (after (dispatch-Started batch Ev w fleet steps batch x may) c, e₂ ∙ e₁)
