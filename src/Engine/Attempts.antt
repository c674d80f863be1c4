-- ===== src/Engine/Attempts.antt =====
-- No step is dispatched more often than its retries allow.
use asterim.Prelude.{
  All-mono, ℕ, zero, suc, ◌+◌, ◌≤◌, ◌≡◌, refl, sym, ap, ◌∙◌, subst, arith, inl, inr, String, Bool,
  true, false, not, ◌&&◌, Option, none, some, List, [], ◌∷◌, leb→le, str_eq, str_eq_refl,
  str_eq_iff, str_eq-cases, Bool-cases, get_or, All, All-append, one,
}
use asterim.Pipeline.Graph.{StepStatus, PipelineStep, ids_of}
use asterim.Pipeline.Prepared.{times}
use asterim.Engine.Types.{Fleet, Event, step_started, step_completed, World, Execution}
use asterim.Engine.Dispatch.{
  is_completed, attempts_of, start_step, start_each, start_batch, Prepared, prepare_each, Outcomes,
  delegate_prepared, dispatch, may_retry, retrying, wait_before_retry, replace_each, retry,
  retry_waited, retry_batch, retry_unless, retry_fuel, dispatch_with_retries, find_step,
}
use asterim.Engine.Changes.{Change, Change-log}
use asterim.Engine.Moves.{
  steps_of, prepare_each-Started, delegate_prepared-Started, dispatch-steps, replace_each-steps,
}
use asterim.Engine.Retries.{
  dispatched, start_each-dispatched, dispatch-dispatched, Begun, attempts_of_begun, stands,
}

-- The attempts that a step may have.
abbrev pub limit : List PipelineStep → String → ℕ
limit steps k = elim (find_step k steps) [ none ↦ 0 | some s ↦ suc (get_or s.retries 0) ]

-- A start is numbered within the attempts of its step.
abbrev pub Within : List PipelineStep → Event → Type 0
Within steps (step_started id n) = n ≤ limit steps id
Within steps (step_completed id v) = Unit

abbrev pub IsWithin : List PipelineStep → Execution → Type 0
IsWithin steps x = ((k : String) → dispatched k x ≤ limit steps k) × All (Within steps) x.log

-- There is room for a dispatch of these steps.
abbrev pub Room : List PipelineStep → List PipelineStep → Execution → Type 0
Room steps ss x = (k : String) → dispatched k x + times k (ids_of ss) ≤ limit steps k

pub Change-Within :
    {Ok : String → StepStatus → Type 0} (steps : List PipelineStep) (x y : Execution)
    → Change Ok (Within steps) x y
    → All (Within steps) x.log
    → All (Within steps) y.log
Change-Within steps x y c h =
    let (es, l, evs) = Change-log c in
    subst (All (Within steps)) (sym l) (All-append (Within steps) x.log es h evs)

start_each-Within :
    (steps : List PipelineStep) (at : ℕ) (ss : List PipelineStep) (x : Execution)
    → Room steps ss x
    → All (Within steps) x.log
    → All (Within steps) (start_each at ss x).log
unfolding start_each
start_each-Within steps at [] x room h = h
start_each-Within steps at (s ∷ ss) x room h =
    start_each-Within steps at ss (start_step at s x)
      (λ k. omega (arith, room k, start_each-dispatched k at (s ∷ []) x))
      (All-append (Within steps) x.log (step_started s.id (suc (dispatched s.id x)) ∷ []) h
        (omega (arith, room s.id, ap one (str_eq_refl s.id)), tt))

module _ (w : World) (fleet : Option Fleet) (steps : List PipelineStep) where
  dispatch-IsWithin :
      (ss : List PipelineStep) (x : Execution)
      → Room steps ss x
      → All (Within steps) x.log
      → IsWithin steps (dispatch w fleet steps ss x).0
  unfolding dispatch start_batch
  dispatch-IsWithin ss x room h =
      let p : Prepared = record {
        execution = start_batch (w.now x.tick) ss x;
        failures = [];
        dispatchable = [];
      } in
      let q : Prepared = prepare_each w fleet steps ss p in
      (
        λ k. omega (arith, dispatch-dispatched w fleet steps k ss x, room k),
        Change-Within steps q.execution (delegate_prepared w fleet steps q.dispatchable ss q).0
            (delegate_prepared-Started ss (Within steps) w fleet steps q.dispatchable ss q)
            (Change-Within steps p.execution q.execution
              (prepare_each-Started ss (Within steps) w fleet steps ss p)
              (start_each-Within steps (w.now x.tick) ss x room h)),
      )

  retrying-times :
      (k : String) (x : Execution) (os : Outcomes)
      → times k (ids_of (retrying w fleet steps x os)) ≤ times k (ids_of (steps_of os))
  retrying-times k x [] = omega arith
  retrying-times k x (o ∷ os) = elim (Bool-cases (may_retry w fleet steps x o)) [
    | inl e ↦ rw e (omega (arith, retrying-times k x os))
    | inr e ↦ rw e (omega (arith, retrying-times k x os))
  ]

  -- The steps of a batch: found under their ids, and none twice.
  abbrev pub IsBatch : List PipelineStep → Type 0
  IsBatch ss =
      All (λ s. find_step s.id steps ≡ some s) ss × ((k : String) → times k (ids_of ss) ≤ 1)

  retrying-room :
      (k : String) (x : Execution) (os : Outcomes)
      → dispatched k x ≤ limit steps k
      → Begun w fleet steps x (steps_of os)
      → All (λ s. find_step s.id steps ≡ some s) (steps_of os)
      → times k (ids_of (steps_of os)) ≤ 1
      → dispatched k x + times k (ids_of (retrying w fleet steps x os)) ≤ limit steps k
  retrying-room k x [] h begun found once = omega (arith, h)
  retrying-room k x (o ∷ os) h (first, begun) (is_found, found) once =
      elim (Bool-cases (may_retry w fleet steps x o)) [
        | inr e ↦ rw e (retrying-room k x os h begun found (omega (arith, once)))
        | inl e ↦ rw e (elim (str_eq-cases o.0.id k) [
          | inr other ↦
              omega (arith, retrying-room k x os h begun found (omega (arith, once)), ap one other)
          | inl here ↦
              let hit : str_eq o.0.id k ≡ true = (str_eq_iff o.0.id k).1 here in
              let few =
                leb→le (attempts_of o.0 1 x) (get_or o.0.retries 0)
                  (second_true (not (is_completed o.1)) _ e) in
              let allowed : limit steps k ≡ suc (get_or o.0.retries 0) =
                subst (λ j. limit steps j ≡ suc (get_or o.0.retries 0)) here
                  (ap (λ f. elim f [ none ↦ 0 | some s ↦ suc (get_or s.retries 0) ]) is_found) in
              omega (
                arith,
                retrying-times k x os,
                once,
                ap one hit,
                few,
                attempts_of_begun w fleet steps o.0 x first,
                ap (λ j. dispatched j x) here,
                allowed,
              )
        ])
      ]
    where
      second_true : (a b : Bool) → a && b ≡ true → b ≡ true
      second_true true b t = t
      second_true false b t = absurd (cc)

  -- What rounds of retries keep.
  abbrev pub Keeps : Execution → Outcomes → Option (Execution × Outcomes) → Type 0
  Keeps x os none = Unit
  Keeps x os (some (y, os')) =
      IsWithin steps y
      × ((k : String) → times k (ids_of (steps_of os)) ≡ 0 → dispatched k y ≡ dispatched k x)

  Keeps-after :
      (x y : Execution) (os os' : Outcomes) (r : Option (Execution × Outcomes))
      → steps_of os' ≡ steps_of os
      → ((k : String) → times k (ids_of (steps_of os)) ≡ 0 → dispatched k y ≡ dispatched k x)
      → Keeps y os' r
      → Keeps x os r
  Keeps-after x y os os' none e same h = tt
  Keeps-after x y os os' (some (z, os'')) e same (within, kept) = (
    within,
    λ k none_there. kept k (ap (λ ts. times k (ids_of ts)) e ∙ none_there) ∙ same k none_there,
  )

  abbrev Ready : Execution → Outcomes → Type 0
  Ready x os = IsWithin steps x × Begun w fleet steps x (steps_of os) × IsBatch (steps_of os)

  module _ (again : Execution → Outcomes → Option (Execution × Outcomes))
      (next : (x : Execution) (os : Outcomes) → Ready x os → Keeps x os (again x os)) where
    waited-Keeps :
        (b : Bool) (tick : ℕ) (x : Execution) (os : Outcomes)
        → Ready x os
        → Keeps x os (
            retry_waited w fleet steps again
              (retrying w fleet steps x os)
              b
              (record x { tick = tick })
              os)
    waited-Keeps false tick x os (within, begun, batch) = (within, λ k e. refl)
    waited-Keeps true tick x os (within, begun, (found, once)) =
        let ss : List PipelineStep = retrying w fleet steps x os in
        let u : Execution = record x { tick = tick } in
        let retried = dispatch w fleet steps ss u in
        let os' : Outcomes = replace_each w fleet steps retried.1 os in
        let e : steps_of os' ≡ steps_of os = replace_each-steps w fleet steps retried.1 os in
        let grown = λ (k : String). dispatch-dispatched w fleet steps k ss u in
        let room : Room steps ss u = λ k. retrying-room k x os (within.0 k) begun found (once k) in
        Keeps-after x retried.0 os os' (again retried.0 os') e
          (λ k e'. omega (arith, grown k, retrying-times k x os, e'))
          (next retried.0 os' (
            dispatch-IsWithin ss u room within.1,
            subst (Begun w fleet steps retried.0) (sym e) (
                All-mono (λ s. 1 ≤ dispatched s.id x) (λ s. 1 ≤ dispatched s.id retried.0)
                  (steps_of os) (λ s h. omega (arith, grown s.id, h)) begun),
            subst IsBatch (sym e) (found, once),
          ))

    batch-Keeps :
        (ss : List PipelineStep) (x : Execution) (os : Outcomes)
        → ss ≡ retrying w fleet steps x os
        → Ready x os
        → Keeps x os (retry_batch w fleet steps again ss x os)
    batch-Keeps [] x os e (within, begun, batch) = (within, λ k e'. refl)
    batch-Keeps (s ∷ ss) x os e ready =
        let waited = wait_before_retry w fleet steps (s ∷ ss) x.tick in
        subst
          (λ ts.
            Keeps x os
              (retry_waited w fleet steps again ts waited.0 (record x { tick = waited.1 }) os))
          (sym e) (waited-Keeps waited.0 waited.1 x os ready)

    unless-Keeps :
        (why : Option String) (x : Execution) (os : Outcomes)
        → Ready x os
        → Keeps x os (retry_unless w fleet steps again why x os)
    unless-Keeps (some why) x os (within, begun, batch) = (within, λ k e. refl)
    unless-Keeps none x os ready = batch-Keeps (retrying w fleet steps x os) x os refl ready

  retry-Keeps :
      (fuel : ℕ) (x : Execution) (os : Outcomes)
      → Ready x os
      → Keeps x os (retry w fleet steps fuel x os)
  unfolding retry
  retry-Keeps zero x os ready = tt
  retry-Keeps (suc fuel) x os ready =
      unless-Keeps (retry w fleet steps fuel) (λ y os' r. retry-Keeps fuel y os' r)
        (w.cancel_reason x.tick) x os ready

  -- A batch for which there is room keeps within the attempts, and leaves other steps alone.
  pub dispatch_with_retries-IsWithin :
      (batch : List PipelineStep) (x y : Execution) (os : Outcomes)
      → Room steps batch x
      → All (Within steps) x.log
      → IsBatch batch
      → dispatch_with_retries w fleet steps batch x ≡ some (y, os)
      → IsWithin steps y
        × ((k : String) → times k (ids_of batch) ≡ 0 → dispatched k y ≡ dispatched k x)
  unfolding dispatch_with_retries
  dispatch_with_retries-IsWithin batch x y os room h is_batch e =
      let first = dispatch w fleet steps batch x in
      let e₁ : steps_of first.1 ≡ batch = dispatch-steps w fleet steps batch x in
      let grown = λ (k : String). dispatch-dispatched w fleet steps k batch x in
      let begun = subst (Begun w fleet steps first.0) (sym e₁) (
        All-mono (λ s. 1 ≤ times s.id (ids_of batch)) (λ s. 1 ≤ dispatched s.id first.0) batch
          (λ s there. omega (arith, grown s.id, there)) (stands w fleet steps batch)) in
      let kept =
        retry-Keeps (retry_fuel w fleet steps batch) first.0 first.1
          (dispatch-IsWithin batch x room h, begun, subst IsBatch (sym e₁) is_batch) in
      let (within, same) = subst (Keeps first.0 first.1) e kept in
      (
        within,
        λ k none_there.
            same k (ap (λ ts. times k (ids_of ts)) e₁ ∙ none_there)
            ∙ omega (arith, grown k, none_there),
      )
