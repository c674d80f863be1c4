-- ===== src/Pipeline/Ancestors.antt =====
-- `pipelineAncestorIds` of packages/shared/src/types/pipeline.ts.
pub mod Collected
mod Examples
use asterim.Prelude.{
  ℕ, zero, suc, ◌≡◌, String, Bool, true, false, not, ◌||◌, Option, none, some, List, [], ◌∷◌, ◌++◌,
  if◌then◌else◌, get_or, length, keep, includes,
}
use asterim.Pipeline.Graph.{PipelineStep, ids_of, topological_pipeline_order}
use asterim.Pipeline.Cycle.{by_id, has_step, depends_of}

-- The loop of `collect` over the dependencies of one step, with `again` for its recursive call.
unfoldable pub collect_each :
    (String → List String → List String)
    → List PipelineStep
    → List String
    → List String
    → List String
collect_each again steps [] seen = seen
collect_each again steps (d ∷ ds) seen =
    let passed_over = not (has_step d steps) || includes d seen in
    let visited = again d (seen ++ d ∷ []) in
    collect_each again steps ds (if passed_over then seen else visited)

-- Every nested call is for a step that has not been seen before.
unfoldable pub collect : ℕ → List PipelineStep → String → List String → List String
unfolding collect_each by_id
collect zero steps id seen = seen
collect (suc n) steps id seen =
    collect_each (collect n steps) steps (depends_of (by_id id steps)) seen

abbrev pub ancestors : List PipelineStep → String → List String
ancestors steps id = collect (suc (length steps)) steps id []

unfoldable pub pipeline_ancestor_ids : List PipelineStep → String → List String
unfolding collect topological_pipeline_order
pipeline_ancestor_ids steps id =
    keep (λ k. includes k (ancestors steps id))
      (get_or (topological_pipeline_order steps) (ids_of steps))
