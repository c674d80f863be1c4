-- ===== src/Engine/Succeeded.antt =====
-- A run of which all goes well is PASSED.
use asterim.Prelude.{
  ℕ, zero, suc, ◌≡◌, refl, sym, ap, ◌∙◌, subst, String, Bool, true, false, Option, none, some, List,
  [], ◌∷◌, str_eq, str_eq_refl, any, includes, length, All, Map, get,
}
use mathlib.Core.Option
use asterim.Pipeline.Graph.{StepStatus, passed, PipelineStep}
use asterim.Pipeline.Status.{is_run_passed}
use asterim.Pipeline.Parser.Values.{YamlValue, ok}
use asterim.Pipeline.Parser.Steps.{Catalogue, PipelineDefinition, parse}
use asterim.Engine.Types.{Fleet, StepRunRow, RunRow, World, Execution}
use asterim.Engine.Dispatch.{Outcomes, dispatch_with_retries}
use asterim.Engine.Loop.{
  first_failed, record_outcomes, After, over, on, finish, after_failed, after_batch, next_batch,
  settle_batch, turn_batch, turn_unless, turn, loop, execute,
}
use asterim.Engine.Changes.{step_is, row_ids, RowAgrees}
use asterim.Engine.Moves.{Startable-freely, dispatch_with_retries-Started}
use asterim.Engine.Ready.{Staged, own_steps}
use asterim.Engine.Retries.{dispatch_with_retries-Ends}
use asterim.Engine.Waiting.{AtTop, no_batch}
use asterim.Engine.Turned.{Goes, turn-Turned}
use asterim.Engine.Ended.{first_execution, first_execution-AtTop}
use asterim.Engine.Carried.{
  any-includes, step_run_rows-row_ids, step_run_rows-fresh, run_pipeline-Staged, run_steps-IsOver,
}
use asterim.Pipeline.Cycle.Found.{or_right}
use asterim.Engine.Passing.{
  IsCalm, dispatch_with_retries-AllCompleted, record_outcomes-passed, first_failed-passed,
}
use asterim.Engine.Runs.{carried_out, step_run_rows, new_run, run_steps, run_pipeline}

module _ (w : World) (fleet : Option Fleet) (steps : List PipelineStep) (staged : Staged [] steps)
    (calm : IsCalm w) where
  abbrev Passes : Execution → Type 0
  Passes y = (k : String) → any (step_is k) steps ≡ true → get k y.statuses ≡ some passed

  -- A turn that ends the run ends it with every step passed.
  abbrev Fine : Option After → Type 0
  Fine (some (over y)) = Passes y
  Fine _ = Unit

  settle_batch-Fine :
      (x y : Execution) (batch : List PipelineStep) (os : Outcomes)
      → dispatch_with_retries w fleet steps batch x ≡ some (y, os)
      → Fine (some (settle_batch w fleet steps batch (y, os)))
  unfolding after_batch
  settle_batch-Fine x y batch os e =
      let completed = dispatch_with_retries-AllCompleted w fleet steps calm batch x y os e in
      let answered =
        (dispatch_with_retries-Started w fleet steps batch (λ v. Unit) x y os
          (Startable-freely batch batch (own_steps batch)) e).1 in
      let z : Execution = record_outcomes w none os y in
      let unfailed : first_failed z.statuses batch ≡ none = first_failed-passed z.statuses batch (
        each z batch
          (λ k own.
            record_outcomes-passed w fleet steps calm os y k completed
              (ap (any (step_is k)) answered ∙ own))
          (own_steps batch)) in
      subst (λ why. Fine (some (after_batch w fleet steps batch why (record_outcomes w why os y))))
        (sym (calm.uncancelled y.tick))
        (subst (λ o. Fine (some (after_failed w fleet steps o z))) (sym unfailed) tt)
    where
      each :
          (z : Execution) (ss : List PipelineStep)
          → ((k : String) → any (step_is k) batch ≡ true → get k z.statuses ≡ some passed)
          → All (λ s. any (step_is s.id) batch ≡ true) ss
          → All (λ s. get s.id z.statuses ≡ some passed) ss
      each z [] h own = tt
      each z (s ∷ ss) h (first, own) = (h s.id first, each z ss h own)

  turn_batch-Fine :
      (x : Execution) (batch : List PipelineStep)
      → batch ≡ next_batch w fleet steps x
      → AtTop steps x
      → Fine (turn_batch w fleet steps batch x)
  unfolding finish
  turn_batch-Fine x [] e top = no_batch w fleet steps staged x top (sym e)
  turn_batch-Fine x (t ∷ ts) e top =
      let (y, (os, found)) = dispatch_with_retries-Ends w fleet steps (t ∷ ts) x in
      subst (λ r. Fine (Option.map (settle_batch w fleet steps (t ∷ ts)) r)) (sym found)
        (settle_batch-Fine x y (t ∷ ts) os found)

  turn-Fine : (x : Execution) → AtTop steps x → Fine (turn w fleet steps x)
  unfolding turn
  turn-Fine x top =
      subst (λ why. Fine (turn_unless w fleet steps why x)) (sym (calm.uncancelled x.tick))
        (turn_batch-Fine x (next_batch w fleet steps x) refl top)

  loop-Passes :
      (fuel : ℕ) (x y : Execution) → AtTop steps x → loop w fleet steps fuel x ≡ some y → Passes y
  unfolding loop
  loop-Passes zero x y top e = absurd (cc)
  loop-Passes (suc fuel) x y top e =
      let (a, turned, goes) = turn-Turned w fleet steps staged x top in
      from (λ z next again. loop-Passes fuel z y next again) a goes
        (subst Fine turned (turn-Fine x top))
        (subst
          (λ o.
            elim o [
              | none ↦ none
              | some (over z) ↦ some z
              | some (on z) ↦ loop w fleet steps fuel z
            ]
            ≡ some y)
          turned e)
    where
      from :
          ((z : Execution) → AtTop steps z → loop w fleet steps fuel z ≡ some y → Passes y)
          → (a : After) → Goes steps x a
          → Fine (some a)
          → (elim a [ over z ↦ some z | on z ↦ loop w fleet steps fuel z ]) ≡ some y
          → Passes y
      from again (over z) goes fine e' =
          subst Passes (ap (λ o. elim o [ none ↦ y | some u ↦ u ]) e') fine
      from again (on z) (next, fewer) fine e' = again z next e'

run_steps-Passes :
    (w : World) (pipeline_id : String) (fleet : Option Fleet) (tick : ℕ) (ts : List PipelineStep)
    (staged : Staged [] ts) (calm : IsCalm w) (y : Execution)
    → run_steps w pipeline_id fleet tick ts ≡ some y
    → Passes w fleet ts staged calm y
unfolding run_steps execute
run_steps-Passes w pipeline_id fleet tick ts staged calm y ended =
    let rows : List StepRunRow = step_run_rows ts in
    let run : RunRow = new_run pipeline_id (w.now tick) in
    loop-Passes w fleet ts staged calm (suc (length ts))
      (first_execution w fleet ts (suc tick) rows run) y
      (first_execution-AtTop w fleet ts (suc tick) rows run (step_run_rows-row_ids ts)
        (step_run_rows-fresh ts ts (own_steps ts)))
      ended

rows_passed :
    (steps : List PipelineStep) (m : Map StepStatus) (rs : List StepRunRow)
    → ((k : String) → any (step_is k) steps ≡ true → get k m ≡ some passed)
    → ((k : String) → includes k (row_ids rs) ≡ true → any (step_is k) steps ≡ true)
    → All (RowAgrees m) rs
    → All (λ r. r.status ≡ passed) rs
rows_passed steps m [] h own agree = tt
rows_passed steps m (r ∷ rs) h own (first, agree) =
    let now : some r.status ≡ some passed =
      sym first ∙ h r.step_id (own r.step_id (rw (str_eq_refl r.step_id) refl)) in
    (
      ap (λ o. elim o [ none ↦ passed | some v ↦ v ]) now,
      rows_passed steps m rs h (λ k there. own k (or_right (str_eq k r.step_id) there)) agree,
    )

-- When nobody cancels, every checkout is provisioned, every delegation completes and every settlement
-- commits, the run of an accepted pipeline of which no run is in progress ends PASSED, and so does
-- every row of its steps.
pub run_pipeline_succeeds :
    (w : World) (pipeline_id : String) (lower upper : String → String) (catalogue : Catalogue)
    (validate_roles : Bool) (document : Option YamlValue) (definition : PipelineDefinition)
    (active : List String) (project : String) (fleet : Option Fleet) (tick : ℕ)
    → parse lower upper catalogue validate_roles document ≡ ok definition
    → any (str_eq pipeline_id) active ≡ false
    → IsCalm w
    → (y : Execution) × (run_pipeline w pipeline_id
          (some definition.steps)
          active
          (some project)
          fleet
          tick
        ≡ carried_out (some y))
      × (is_run_passed y.run.status ≡ true)
      × All (λ r. r.status ≡ passed) y.rows
run_pipeline_succeeds w pipeline_id lower upper catalogue validate_roles document definition active
      project fleet tick parsed idle calm =
    let (ts, ran, are, staged) =
      run_pipeline-Staged w pipeline_id lower upper catalogue validate_roles document definition
        active project fleet tick parsed idle in
    let (y, ended, is_over) = run_steps-IsOver w pipeline_id fleet tick ts staged in
    let all_passed : Passes w fleet ts staged calm y =
      run_steps-Passes w pipeline_id fleet tick ts staged calm y ended in
    (
      y,
      ran ∙ ap carried_out ended,
      is_over.passes.1 all_passed,
      rows_passed ts y.statuses y.rows all_passed
          (λ k there. any-includes k ts ∙ (ap (includes k) (sym is_over.rows_of) ∙ there))
          is_over.agree,
    )
