-- ===== src/Pipeline/Ancestors/Examples.antt =====
-- The ancestors of a step of a release, and those of a step on a circle.
use asterim.Prelude.{◌≡◌, ◌↔◌, refl, true, [], ◌∷◌, includes, str_eq, get, put, unique}
use asterim.Pipeline.Graph.{
  topological_pipeline_order, finished_walk, plan_steps, known_dependencies, add_dependent,
  first_queue, first_walk, release_dependents, take_next, walk,
}
use asterim.Pipeline.Cycle.{by_id}
use asterim.Pipeline.Ancestors.{pipeline_ancestor_ids}
use asterim.Pipeline.Ancestors.Collected.{Reaches, pipeline_ancestor_ids-Reaches}
use asterim.Pipeline.Examples.{step_of, release_steps}

docs_ancestors : pipeline_ancestor_ids release_steps "docs" ≡ "code" ∷ "test" ∷ []
unfolding pipeline_ancestor_ids topological_pipeline_order finished_walk plan_steps
    known_dependencies add_dependent first_queue first_walk release_dependents take_next walk unique
    get put str_eq by_id
docs_ancestors = refl

circle_ancestors :
    pipeline_ancestor_ids (step_of "a" ("b" ∷ []) ∷ step_of "b" ("a" ∷ []) ∷ []) "a"
    ≡ "a" ∷ "b" ∷ []
unfolding pipeline_ancestor_ids topological_pipeline_order finished_walk plan_steps
    known_dependencies add_dependent first_queue first_walk release_dependents take_next walk unique
    get put str_eq by_id
circle_ancestors = refl

pipeline_ancestor_ids-Reaches_example :
    (includes "code" (pipeline_ancestor_ids release_steps "docs") ≡ true)
    ↔ Reaches release_steps "docs" "code"
unfolding get str_eq
pipeline_ancestor_ids-Reaches_example =
    pipeline_ancestor_ids-Reaches release_steps "docs" "code" (refl, (refl, (refl, tt)))
