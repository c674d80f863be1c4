-- ===== src/Engine/Carried.antt =====
-- What `runPipeline` answers for a definition that the parser accepted.
use asterim.Prelude.{
  ℕ, suc, ◌≤◌, ◌≡◌, refl, sym, ap, ◌∙◌, subst, arith, inl, inr, String, Bool, true, false, Option,
  none, some, List, [], ◌∷◌, if◌then◌else◌, str_eq, str_eq_iff, str_eq_comm, str_eq-cases,
  Bool-cases, Option-cases, is_some, any, includes, All, IsKeyed, one,
}
use asterim.Pipeline.Graph.{pending, PipelineStep, topological_pipeline_order, ids_of}
use asterim.Pipeline.Prepared.{times}
use asterim.Pipeline.Ordered.{dependency_table, topological_pipeline_order-Follows}
use asterim.Pipeline.Cycle.Tables.{has_step-includes}
use asterim.Pipeline.Cycle.Counted.{
  times-unique, finished_walk-times, topological_pipeline_order-full, order_walked, times-includes,
}
use asterim.Pipeline.Parser.Values.{YamlValue, ok}
use asterim.Pipeline.Parser.Steps.{Catalogue, PipelineDefinition, parse}
use asterim.Pipeline.Parser.Parsed.{parse-IsSound}
use asterim.Engine.Types.{Fleet, World, Execution}
use asterim.Engine.Loop.{find_steps}
use asterim.Engine.Dispatch.{find_step}
use asterim.Engine.Changes.{step_is, row_ids}
use asterim.Engine.Shape.{IsOver}
use asterim.Engine.Ready.{Staged, own_steps}
use asterim.Engine.Ended.{execute-IsOver}
use asterim.Engine.Runs.{step_run_rows, new_run, carried_out, run_steps, run_pipeline}
use asterim.Engine.Ordered.{find_step-id, find_steps-Staged}

pub any-includes :
    (a : String) (ss : List PipelineStep) → any (step_is a) ss ≡ includes a (ids_of ss)
any-includes a [] = refl
any-includes a (s ∷ ss) = rw (str_eq_comm s.id a, any-includes a ss) refl

is_some-find_step :
    (a : String) (ss : List PipelineStep) → is_some (find_step a ss) ≡ any (step_is a) ss
unfolding find_step
is_some-find_step a [] = refl
is_some-find_step a (s ∷ ss) = elim (Bool-cases (str_eq s.id a)) [
  | inl e ↦ rw e refl
  | inr e ↦ rw e (is_some-find_step a ss)
]

abbrev nothing : Option PipelineStep
nothing = none

neither : (b : Bool) → (if b then nothing else nothing) ≡ nothing
neither true = refl
neither false = refl

-- The steps that are looked up by ids are those that have one of the ids.
find_steps-find_step :
    (a : String) (xs : List String) (steps : List PipelineStep)
    → find_step a (find_steps xs steps) ≡ (if includes a xs then find_step a steps else none)
unfolding find_steps find_step
find_steps-find_step a [] steps = refl
find_steps-find_step a (x ∷ xs) steps = elim (Option-cases (find_step x steps)) [
  | inl e ↦ elim (str_eq-cases a x) [
    | inr other ↦ rw (e, other) (find_steps-find_step a xs steps)
    | inl same ↦
        let gone : find_step a steps ≡ none = ap (λ k. find_step k steps) same ∙ e in
        rw (e, (str_eq_iff a x).1 same, find_steps-find_step a xs steps, gone)
          (neither (includes a xs))
  ]
  | inr (s, e) ↦ elim (str_eq-cases a x) [
    | inr other ↦
        let s_other : str_eq s.id a ≡ false =
          ap (λ k. str_eq k a) (find_step-id x steps s e) ∙ (str_eq_comm x a ∙ other) in
        rw (e, other, s_other) (find_steps-find_step a xs steps)
    | inl same ↦
        let s_same : str_eq s.id a ≡ true =
          (str_eq_iff s.id a).1 (find_step-id x steps s e ∙ sym same) in
        let there : find_step a steps ≡ some s = ap (λ k. find_step k steps) same ∙ e in
        rw (e, (str_eq_iff a x).1 same, s_same, there) refl
  ]
]

pub step_run_rows-row_ids : (ss : List PipelineStep) → row_ids (step_run_rows ss) ≡ ids_of ss
unfolding step_run_rows
step_run_rows-row_ids [] = refl
step_run_rows-row_ids (s ∷ ss) = ap (λ k. s.id ∷ k) (step_run_rows-row_ids ss)

pub step_run_rows-fresh :
    (steps ss : List PipelineStep)
    → All (λ s. any (step_is s.id) steps ≡ true) ss
    → All (λ r. (any (step_is r.step_id) steps ≡ true) × (r.status ≡ pending)) (step_run_rows ss)
unfolding step_run_rows
step_run_rows-fresh steps [] h = tt
step_run_rows-fresh steps (s ∷ ss) (own, h) = ((own, refl), step_run_rows-fresh steps ss h)

module _ (steps : List PipelineStep) (keyed : IsKeyed (dependency_table steps))
    (order : List String) (found : topological_pipeline_order steps ≡ some order) where
  -- No stranger stands in the order.
  order_known : (a : String) → 1 ≤ times a order → any (step_is a) steps ≡ true
  order_known a there = elim (Bool-cases (includes a (ids_of steps))) [
    | inl known ↦ any-includes a steps ∙ known
    | inr stranger ↦ absurd (
        omega (
          arith,
          there,
          ap (times a) (order_walked steps order found),
          finished_walk-times steps a keyed,
          times-unique a (ids_of steps),
          ap one stranger,
        ))
  ]

  order_has : (a : String) → any (step_is a) steps ≡ true → includes a order ≡ true
  order_has a own = times-includes a order (
      subst (λ xs. 1 ≤ times a xs) (order_walked steps order found)
        (topological_pipeline_order-full steps order a keyed found
          (has_step-includes a steps ∙ (sym (any-includes a steps) ∙ own))))

  ordered_steps_are : (a : String) → find_step a (find_steps order steps) ≡ find_step a steps
  ordered_steps_are a = elim (Option-cases (find_step a steps)) [
    | inl e ↦ rw (find_steps-find_step a order steps, e) (neither (includes a order))
    | inr (s, e) ↦
        let own : any (step_is a) steps ≡ true = sym (is_some-find_step a steps) ∙ ap is_some e in
        rw (find_steps-find_step a order steps, order_has a own) refl
  ]

-- `runPipeline` carries out the steps of an accepted definition, in their order.
pub run_pipeline-Staged :
    (w : World) (pipeline_id : String) (lower upper : String → String) (catalogue : Catalogue)
    (validate_roles : Bool) (document : Option YamlValue) (definition : PipelineDefinition)
    (active : List String) (project : String) (fleet : Option Fleet) (tick : ℕ)
    → parse lower upper catalogue validate_roles document ≡ ok definition
    → any (str_eq pipeline_id) active ≡ false
    → (ts : List PipelineStep) × (run_pipeline w pipeline_id
          (some definition.steps)
          active
          (some project)
          fleet
          tick
        ≡ carried_out (run_steps w pipeline_id fleet tick ts))
      × ((k : String) → find_step k ts ≡ find_step k definition.steps)
      × Staged [] ts
unfolding run_pipeline
run_pipeline-Staged w pipeline_id lower upper catalogue validate_roles document definition active
      project fleet tick parsed idle =
    let steps : List PipelineStep = definition.steps in
    let accepted =
      (parse-IsSound lower upper catalogue validate_roles document definition parsed).accepted in
    let (order, found) = accepted.ordered in
    let keyed = accepted.keyed in
    let (follows, once) = topological_pipeline_order-Follows steps order keyed found in
    (
      find_steps order steps,
      rw (idle, found) refl,
      ordered_steps_are steps keyed order found,
      find_steps-Staged steps keyed accepted.linked [] order follows (λ a. omega (arith, once a))
          (λ a there. is_some-find_step a steps ∙ order_known steps keyed order found a there),
    )

pub run_steps-IsOver :
    (w : World) (pipeline_id : String) (fleet : Option Fleet) (tick : ℕ) (ts : List PipelineStep)
    → Staged [] ts
    → (y : Execution) × (run_steps w pipeline_id fleet tick ts ≡ some y) × IsOver ts y
unfolding run_steps
run_steps-IsOver w pipeline_id fleet tick ts staged =
    execute-IsOver w fleet ts (suc tick) (step_run_rows ts) (new_run pipeline_id (w.now tick))
      staged (step_run_rows-row_ids ts) (step_run_rows-fresh ts ts (own_steps ts))

-- When the parser accepts the definition of a pipeline of which no run is in progress, `runPipeline`
-- carries a run out to its end, whatever the clock, the operator, the worktree fleet and the agents
-- do: it takes the same steps, each after those that it depends on. At the end the run is over, each
-- step has one row, with the status that the engine holds for it, and none is pending or running.
-- The run is PASSED exactly if every step is, and no step was started before all that it depends on
-- had been published as PASSED.
pub run_pipeline-IsOver :
    (w : World) (pipeline_id : String) (lower upper : String → String) (catalogue : Catalogue)
    (validate_roles : Bool) (document : Option YamlValue) (definition : PipelineDefinition)
    (active : List String) (project : String) (fleet : Option Fleet) (tick : ℕ)
    → parse lower upper catalogue validate_roles document ≡ ok definition
    → any (str_eq pipeline_id) active ≡ false
    → (ts : List PipelineStep) × (y : Execution) × (run_pipeline w pipeline_id
          (some definition.steps)
          active
          (some project)
          fleet
          tick
        ≡ carried_out (some y))
      × ((k : String) → find_step k ts ≡ find_step k definition.steps)
      × Staged [] ts
      × IsOver ts y
run_pipeline-IsOver w pipeline_id lower upper catalogue validate_roles document definition active
      project fleet tick parsed idle =
    let (ts, ran, are, staged) =
      run_pipeline-Staged w pipeline_id lower upper catalogue validate_roles document definition
        active project fleet tick parsed idle in
    let (y, ended, is_over) = run_steps-IsOver w pipeline_id fleet tick ts staged in
    (ts, y, ran ∙ ap carried_out ended, are, staged, is_over)
