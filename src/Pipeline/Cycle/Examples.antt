-- ===== src/Pipeline/Cycle/Examples.antt =====
-- Steps in a circle, and steps with an order.
use asterim.Prelude.{◌≡◌, ◌↔◌, refl, true, none, some, List, [], ◌∷◌, is_some, get, put, str_eq}
use asterim.Pipeline.Graph.{PipelineStep, topological_pipeline_order}
use asterim.Pipeline.Examples.{step_of, release_steps}
use asterim.Pipeline.Cycle.{by_id, find_pipeline_cycle}
use asterim.Pipeline.Cycle.Agreement.{find_pipeline_cycle-topological_pipeline_order}

-- `start` leads into the circle of `a`, `b` and `c`, and `gone` is no step.
abbrev circle : List PipelineStep
circle =
    step_of "start" ("gone" ∷ "b" ∷ [])
    ∷ step_of "a" ("b" ∷ [])
    ∷ step_of "b" ("c" ∷ [])
    ∷ step_of "c" ("a" ∷ [])
    ∷ []

circle_found : find_pipeline_cycle circle ≡ some ("b" ∷ "c" ∷ "a" ∷ "b" ∷ [])
unfolding find_pipeline_cycle by_id get put str_eq
circle_found = refl

find_pipeline_cycle-topological_pipeline_order_example :
    (find_pipeline_cycle release_steps ≡ none)
    ↔ (is_some (topological_pipeline_order release_steps) ≡ true)
unfolding get str_eq
find_pipeline_cycle-topological_pipeline_order_example =
    find_pipeline_cycle-topological_pipeline_order release_steps (refl, (refl, (refl, tt)))

release_steps_acyclic : find_pipeline_cycle release_steps ≡ none
unfolding find_pipeline_cycle by_id get put str_eq
release_steps_acyclic = refl
