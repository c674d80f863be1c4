-- ===== src/Engine/Bounded.antt =====
-- A run starts no step more often than its retries allow.
use asterim.Prelude.{
  ℕ, zero, suc, ◌≤◌, ◌≡◌, refl, sym, ap, ◌∙◌, subst, arith, inl, inr, String, Bool, true, false,
  Option, none, some, List, [], ◌∷◌, get_or, str_eq, Bool-cases, any, length, All, get,
}
use mathlib.Core.Option
use asterim.Pipeline.Graph.{pending, passed, cancelled, PipelineStep, ids_of}
use asterim.Pipeline.Prepared.{times}
use asterim.Pipeline.Parser.Values.{YamlValue, ok}
use asterim.Pipeline.Parser.Steps.{Catalogue, PipelineDefinition, parse}
use asterim.Engine.Types.{
  Fleet, StepRunRow, RunRow, Event, step_started, step_completed, World, Execution, stopped,
}
use asterim.Engine.Dispatch.{Outcomes, dispatch_with_retries, find_step}
use asterim.Engine.Loop.{
  finish, record_outcomes, After, over, on, next_batch, settle_batch, turn_batch, turn_unless, turn,
  loop, execute,
}
use asterim.Engine.Changes.{step_is, Change-outside}
use asterim.Engine.Moves.{Startable-freely, dispatch_with_retries-Started}
use asterim.Engine.Retries.{dispatched, dispatch_with_retries-Ends}
use asterim.Engine.Batches.{record_outcomes-Recorded, first_failed-none}
use asterim.Engine.Ready.{Staged, IsNext, own_steps}
use asterim.Engine.Waiting.{AtTop, next_batch-IsNext}
use asterim.Engine.Turned.{Goes, turn-Turned}
use asterim.Engine.Attempts.{limit, Within, IsWithin, Change-Within, dispatch_with_retries-IsWithin}
use asterim.Engine.Rooms.{
  record_outcomes-attempts, none_times, IsWithin-same, Idle, Stays, next_batch-times, batch-Room,
  after_batch-Stays, settled-IsWithin,
}
use asterim.Engine.Ended.{first_execution, first_execution-AtTop}
use asterim.Engine.Carried.{
  step_run_rows-row_ids, step_run_rows-fresh, run_pipeline-Staged, run_steps-IsOver,
}
use asterim.Engine.Runs.{carried_out, step_run_rows, new_run, run_steps, run_pipeline}

module _ (w : World) (fleet : Option Fleet) (steps : List PipelineStep)
    (staged : Staged [] steps) where
  settle_batch-Stays :
      (x y : Execution) (batch : List PipelineStep) (os : Outcomes)
      → batch ≡ next_batch w fleet steps x
      → AtTop steps x
      → Idle steps x
      → dispatch_with_retries w fleet steps batch x ≡ some (y, os)
      → Stays steps (settle_batch w fleet steps batch (y, os))
  settle_batch-Stays x y batch os e top idle found =
      let why = w.cancel_reason y.tick in
      let z : Execution = record_outcomes w why os y in
      let next : All (IsNext steps x.statuses) batch =
        subst (All (IsNext steps x.statuses)) (sym e) (next_batch-IsNext w fleet steps staged x) in
      let once : (k : String) → times k (ids_of batch) ≤ 1 = λ k.
        subst (λ ts. times k (ids_of ts) ≤ 1) (sym e) (next_batch-times w fleet steps staged k x) in
      let room = batch-Room w fleet steps staged x batch top idle next once in
      let (within, same) =
        dispatch_with_retries-IsWithin w fleet steps batch x y os room idle.0.1
          (found_all batch next, once) found in
      let (started, answered) =
        dispatch_with_retries-Started w fleet steps batch (λ v. Unit) x y os
          (Startable-freely batch batch (own_steps batch)) found in
      let recorded =
        record_outcomes-Recorded batch (Within steps) w why os y (λ id v. tt)
          (subst (All (λ s. any (step_is s.id) batch ≡ true)) (sym answered) (own_steps batch)) in
      let within_z : IsWithin steps z =
        IsWithin-same steps y z (record_outcomes-attempts w why os y)
          (Change-Within steps y z recorded within.1) within in
      after_batch-Stays w fleet steps staged why batch z within_z (λ none_failed k waits.
        elim (Bool-cases (any (step_is k) batch)) [
          | inl inside ↦ absurd (
              let passes = first_failed-none z.statuses batch k none_failed inside in
              let bad : some passed ≡ some pending = sym passes ∙ waits in cc)
          | inr outside ↦
              let waited : get k x.statuses ≡ some pending =
                sym (
                  Change-outside k recorded (λ v o. absurd (let b = o.0 in cc))
                  ∙ Change-outside k started (λ v o. absurd (let b = o.0 in cc)))
                ∙ waits in
              ap (λ m. get_or (get k m) 0) (record_outcomes-attempts w why os y)
              ∙ (same k (none_times k batch outside) ∙ idle.1 k waited)
        ])
    where
      found_all :
          (ts : List PipelineStep)
          → All (IsNext steps x.statuses) ts
          → All (λ s. find_step s.id steps ≡ some s) ts
      found_all [] h = tt
      found_all (t ∷ ts) ((own, is_found, ready), h) = (is_found, found_all ts h)

  abbrev StaysIf : Option After → Type 0
  StaysIf none = Unit
  StaysIf (some a) = Stays steps a

  turn_batch-Stays :
      (x : Execution) (batch : List PipelineStep)
      → batch ≡ next_batch w fleet steps x
      → AtTop steps x
      → Idle steps x
      → StaysIf (turn_batch w fleet steps batch x)
  unfolding finish
  turn_batch-Stays x [] e top idle = idle.0
  turn_batch-Stays x (t ∷ ts) e top idle =
      let (y, (os, found)) = dispatch_with_retries-Ends w fleet steps (t ∷ ts) x in
      subst (λ r. StaysIf (Option.map (settle_batch w fleet steps (t ∷ ts)) r)) (sym found)
        (settle_batch-Stays x y (t ∷ ts) os e top idle found)

  turn-Stays : (x : Execution) → AtTop steps x → Idle steps x → StaysIf (turn w fleet steps x)
  unfolding turn
  turn-Stays x top idle = unless (w.cancel_reason x.tick)
    where
      unless : (why : Option String) → StaysIf (turn_unless w fleet steps why x)
      unless none = turn_batch-Stays x (next_batch w fleet steps x) refl top idle
      unless (some why) =
          settled-IsWithin steps (w.now x.tick) cancelled (stopped why) (stopped why) x
            (λ e. absurd (cc)) idle.0

  loop-IsWithin :
      (fuel : ℕ) (x y : Execution)
      → AtTop steps x
      → Idle steps x
      → loop w fleet steps fuel x ≡ some y
      → IsWithin steps y
  unfolding loop
  loop-IsWithin zero x y top idle e = absurd (cc)
  loop-IsWithin (suc fuel) x y top idle e =
      let (a, turned, goes) = turn-Turned w fleet steps staged x top in
      from (λ z next i again. loop-IsWithin fuel z y next i again) a goes
        (subst StaysIf turned (turn-Stays x top idle))
        (subst
          (λ o.
            elim o [
              | none ↦ none
              | some (over z) ↦ some z
              | some (on z) ↦ loop w fleet steps fuel z
            ]
            ≡ some y)
          turned e)
    where
      from :
          ((z : Execution)
            → AtTop steps z
            → Idle steps z
            → loop w fleet steps fuel z ≡ some y
            → IsWithin steps y)
          → (a : After) → Goes steps x a
          → Stays steps a
          → (elim a [ over z ↦ some z | on z ↦ loop w fleet steps fuel z ]) ≡ some y
          → IsWithin steps y
      from again (over z) goes within e' =
          subst (IsWithin steps) (ap (λ o. elim o [ none ↦ y | some u ↦ u ]) e') within
      from again (on z) (next, fewer) idle_still e' = again z next idle_still e'

run_steps-IsWithin :
    (w : World) (pipeline_id : String) (fleet : Option Fleet) (tick : ℕ) (ts : List PipelineStep)
    (staged : Staged [] ts) (y : Execution)
    → run_steps w pipeline_id fleet tick ts ≡ some y
    → IsWithin ts y
unfolding run_steps execute get
run_steps-IsWithin w pipeline_id fleet tick ts staged y ended =
    let rows : List StepRunRow = step_run_rows ts in
    let run : RunRow = new_run pipeline_id (w.now tick) in
    loop-IsWithin w fleet ts staged (suc (length ts))
      (first_execution w fleet ts (suc tick) rows run) y
      (first_execution-AtTop w fleet ts (suc tick) rows run (step_run_rows-row_ids ts)
        (step_run_rows-fresh ts ts (own_steps ts)))
      ((λ k. omega arith, tt), λ k e. refl) ended

same_limits :
    (ts steps : List PipelineStep) (y : Execution)
    → ((k : String) → find_step k ts ≡ find_step k steps)
    → IsWithin ts y
    → IsWithin steps y
same_limits ts steps y are (bounded, log) =
    (λ k. subst (λ n. dispatched k y ≤ n) (same k) (bounded k), each y.log log)
  where
    same : (k : String) → limit ts k ≡ limit steps k
    same k = ap (λ f. elim f [ none ↦ 0 | some s ↦ suc (get_or s.retries 0) ]) (are k)

    each : (es : List Event) → All (Within ts) es → All (Within steps) es
    each [] h = tt
    each (step_started id n ∷ es) (first, h) = (subst (λ m. n ≤ m) (same id) first, each es h)
    each (step_completed id v ∷ es) (first, h) = (tt, each es h)

-- Whatever happens during the run of an accepted pipeline of which no run is in progress, it ends,
-- each step has been dispatched at most once more often than its retries, and every start that was
-- published is numbered accordingly.
pub run_pipeline-IsWithin :
    (w : World) (pipeline_id : String) (lower upper : String → String) (catalogue : Catalogue)
    (validate_roles : Bool) (document : Option YamlValue) (definition : PipelineDefinition)
    (active : List String) (project : String) (fleet : Option Fleet) (tick : ℕ)
    → parse lower upper catalogue validate_roles document ≡ ok definition
    → any (str_eq pipeline_id) active ≡ false
    → (y : Execution) × (run_pipeline w pipeline_id
          (some definition.steps)
          active
          (some project)
          fleet
          tick
        ≡ carried_out (some y))
      × IsWithin definition.steps y
run_pipeline-IsWithin w pipeline_id lower upper catalogue validate_roles document definition active
      project fleet tick parsed idle =
    let (ts, ran, are, staged) =
      run_pipeline-Staged w pipeline_id lower upper catalogue validate_roles document definition
        active project fleet tick parsed idle in
    let (y, ended, is_over) = run_steps-IsOver w pipeline_id fleet tick ts staged in
    let within = run_steps-IsWithin w pipeline_id fleet tick ts staged y ended in
    (y, ran ∙ ap carried_out ended, same_limits ts definition.steps y are within)
