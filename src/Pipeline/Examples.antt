-- ===== src/Pipeline/Examples.antt =====
-- A pipeline of three steps.
use asterim.Prelude.{◌≤◌, ◌≡◌, refl, String, some, none, List, [], ◌∷◌, unique, get, put, str_eq}
use asterim.Pipeline.Graph.{
  PipelineStep, topological_pipeline_order, finished_walk, plan_steps, known_dependencies,
  add_dependent, first_queue, first_walk, release_dependents, take_next, walk,
}
use asterim.Pipeline.Prepared.{times}
use asterim.Pipeline.Turn.{Follows}
use asterim.Pipeline.Ordered.{dependency_table, topological_pipeline_order-Follows}

abbrev pub step_of : String → List String → PipelineStep
step_of id depends_on = record {
  id = id;
  name = id;
  role_profile_id = "role";
  task = "task";
  depends_on = depends_on;
  input_context = none;
  timeout_ms = none;
  isolate_worktree = none;
  verify_pipeline = none;
  verification_steps = none;
  retries = none;
  retry_delay_ms = none;
}

-- `missing` is no step, and `code` is named twice.
abbrev pub release_steps : List PipelineStep
release_steps =
    step_of "docs" ("test" ∷ "code" ∷ [])
    ∷ step_of "test" ("code" ∷ "code" ∷ "missing" ∷ [])
    ∷ step_of "code" []
    ∷ []

release_steps-order :
    topological_pipeline_order release_steps ≡ some ("code" ∷ "test" ∷ "docs" ∷ [])
unfolding topological_pipeline_order finished_walk plan_steps known_dependencies add_dependent
    first_queue first_walk release_dependents take_next walk unique get put str_eq
release_steps-order = refl

circle_order :
    topological_pipeline_order (step_of "a" ("b" ∷ []) ∷ step_of "b" ("a" ∷ []) ∷ []) ≡ none
unfolding topological_pipeline_order finished_walk plan_steps known_dependencies add_dependent
    first_queue first_walk release_dependents take_next walk unique get put str_eq
circle_order = refl

topological_pipeline_order-Follows_example :
    Follows (dependency_table release_steps) [] ("code" ∷ "test" ∷ "docs" ∷ [])
    × ((a : String) → times a ("code" ∷ "test" ∷ "docs" ∷ []) ≤ 1)
unfolding get str_eq
topological_pipeline_order-Follows_example =
    topological_pipeline_order-Follows release_steps ("code" ∷ "test" ∷ "docs" ∷ [])
      (refl, (refl, (refl, tt))) release_steps-order
