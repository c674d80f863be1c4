-- ===== src/Engine/Runs.antt =====
-- `runPipeline`: what it refuses, the rows of a run, and how the run is started.
use asterim.Prelude.{ℕ, suc, String, Option, none, some, List, [], ◌∷◌, if◌then◌else◌, str_eq, any}
use asterim.Pipeline.Graph.{run_running, pending, PipelineStep, topological_pipeline_order}
use asterim.Engine.Types.{Fleet, StepRunRow, RunRow, World, Execution}
use asterim.Engine.Loop.{find_steps, execute}

-- The columns that `INSERT INTO pipeline_step_runs` sets; the others are `NULL`.
abbrev pub step_run_row : PipelineStep → StepRunRow
step_run_row s = record {
  step_id = s.id;
  step_name = s.name;
  role_profile_id = s.role_profile_id;
  status = pending;
  thread_id = none;
  worktree_path = none;
  worktree_branch = none;
  commit_sha = none;
  attempts = none;
  diff = none;
  output = none;
  started_at = none;
  completed_at = none;
  error_message = none;
}

unfoldable pub step_run_rows : List PipelineStep → List StepRunRow
step_run_rows [] = []
step_run_rows (s ∷ ss) = step_run_row s ∷ step_run_rows ss

abbrev pub new_run : String → ℕ → RunRow
new_run pipeline_id at = record {
  pipeline_id = pipeline_id;
  status = run_running;
  current_step_id = none;
  started_at = at;
  completed_at = none;
  error_message = none;
}

-- The errors of `runPipeline`, and a run that it carried out: `none` in it means that fuel ran out.
pub data RunAnswer : Type 0 where
  unknown_pipeline : RunAnswer
  already_running : RunAnswer
  no_project : RunAnswer
  no_order : RunAnswer
  carried_out : Option Execution → RunAnswer

module _ (w : World) (pipeline_id : String) where
  unfoldable pub run_steps : Option Fleet → ℕ → List PipelineStep → Option Execution
  unfolding execute step_run_rows
  run_steps fleet tick steps =
      execute w fleet steps (suc tick) (step_run_rows steps) (new_run pipeline_id (w.now tick))

  abbrev pub run_ordered : Option Fleet → ℕ → List PipelineStep → Option (List String) → RunAnswer
  run_ordered fleet tick steps none = no_order
  run_ordered fleet tick steps (some order) =
      carried_out (run_steps fleet tick (find_steps order steps))

  -- The pipeline is what `requirePipeline` found, the active map holds the pipelines of the runs that
  -- are in progress, and the project is what `resolveProjectId` returned, or `none` if it threw.
  unfoldable pub run_pipeline :
      Option (List PipelineStep) → List String → Option String → Option Fleet → ℕ → RunAnswer
  unfolding run_steps find_steps topological_pipeline_order
  run_pipeline none active project fleet tick = unknown_pipeline
  run_pipeline (some steps) active none fleet tick =
      if any (str_eq pipeline_id) active then already_running else no_project
  run_pipeline (some steps) active (some project) fleet tick =
      if any (str_eq pipeline_id) active
      then already_running
      else run_ordered fleet tick steps (topological_pipeline_order steps)
