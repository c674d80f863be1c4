-- ===== src/Engine/Examples.antt =====
-- Runs of two steps: one that passes, and one whose first step fails in all of its attempts.
use asterim.Prelude.{
  ◌≡◌, leb, if◌then◌else◌, refl, ap, suc, length, All, String, true, false, Option, none, some,
  List, [], ◌∷◌, map, String, trim_start, trim_end, str_eq, put, get, delete, unique,
}
use mathlib.Core.Option
use asterim.Pipeline.Graph.{
  RunStatus, run_running, run_failed, pending, running, StepStatus, passed, failed, skipped,
  PipelineStep, topological_pipeline_order, finished_walk, plan_steps, known_dependencies,
  add_dependent, first_queue, first_walk, release_dependents, take_next, walk,
}
use asterim.Pipeline.Parser.Examples.{same_case, catalogue, document, definition, document_parsed}
use asterim.Engine.Types.{
  completed, DelegationResult, PipelineStepWorktree, Fleet, Request, provisioned, answered, threw,
  committed, World, Execution, Event, step_started, step_completed,
}
use asterim.Engine.Dispatch.{find_step, is_completed, wait_before_retry}
use asterim.Engine.Shape.{IsOver}
use asterim.Engine.Ready.{Staged}
use asterim.Engine.Stored.{StoredRun, Stored, run_not_found, replied, cancel_pipeline, recover_runs}
use asterim.Engine.Recovered.{Settles, recover_runs-Settles}
use asterim.Pipeline.Examples.{step_of}
use asterim.Engine.Runs.{
  step_run_row, new_run, RunAnswer, carried_out, already_running, run_pipeline,
}
use asterim.Engine.Attempts.{IsWithin}
use asterim.Engine.Bounded.{run_pipeline-IsWithin}
use asterim.Engine.Passing.{IsCalm}
use asterim.Engine.Succeeded.{run_pipeline_succeeds}
use asterim.Pipeline.Status.{is_run_passed}
use asterim.Engine.Carried.{run_pipeline-IsOver}

abbrev done : Request → DelegationResult
done r = record {
  child_thread_id = "child";
  status = completed;
  summary = "";
  output = r.step.id;
  worktree_path = none;
  diff = none;
}

abbrev checkout : PipelineStepWorktree
checkout = record { path = "/work"; branch = "branch"; base_commit = "base" }

-- Every delegation is completed.
abbrev calm : World
calm = record {
  now = λ tick. tick;
  cancel_reason = λ tick. none;
  provision = λ tick c. provisioned checkout;
  delegate = λ tick rs. answered (map done rs);
  settle = λ tick t. committed "sha";
}

-- Every delegation throws.
abbrev broken : World
broken = record calm { delegate = λ tick rs. threw "no agent" }

abbrev fleet : Fleet
fleet = record { repo_path = "/repo"; base_commit = "base" }

abbrev statuses_of : RunAnswer → List StepStatus
statuses_of (carried_out (some y)) = map (λ r. r.status) y.rows
statuses_of _ = []

abbrev log_of : RunAnswer → List Event
log_of (carried_out (some y)) = y.log
log_of _ = []

calm_run :
    log_of (run_pipeline calm "p" (some definition.steps) [] (some "project") (some fleet) 0)
    ≡ step_started "code" 1
      ∷ step_completed "code" passed
      ∷ step_started "test" 1
      ∷ step_completed "test" passed
      ∷ []
unfolding run_pipeline topological_pipeline_order finished_walk plan_steps known_dependencies
    add_dependent first_queue first_walk release_dependents take_next walk unique get put str_eq
    delete
calm_run = refl

-- `code` has two retries.
broken_run :
    statuses_of (run_pipeline broken "p" (some definition.steps) [] (some "project") none 0)
    ≡ failed ∷ skipped ∷ []
unfolding run_pipeline topological_pipeline_order finished_walk plan_steps known_dependencies
    add_dependent first_queue first_walk release_dependents take_next walk unique get put str_eq
broken_run = refl

broken_log :
    log_of (run_pipeline broken "p" (some definition.steps) [] (some "project") none 0)
    ≡ step_started "code" 1
      ∷ step_started "code" 2
      ∷ step_started "code" 3
      ∷ step_completed "code" failed
      ∷ []
unfolding run_pipeline topological_pipeline_order finished_walk plan_steps known_dependencies
    add_dependent first_queue first_walk release_dependents take_next walk unique get put str_eq
broken_log = refl

second_run :
    run_pipeline calm "p" (some definition.steps) ("q" ∷ "p" ∷ []) (some "project") none 0
    ≡ already_running
unfolding run_pipeline str_eq
second_run = refl

run_pipeline-IsOver_example :
    (ts : List PipelineStep) × (y : Execution) × (run_pipeline broken "p"
        (some definition.steps)
        ("q" ∷ [])
        (some "project")
        (some fleet)
        0
      ≡ carried_out (some y))
    × ((k : String) → find_step k ts ≡ find_step k definition.steps)
    × Staged [] ts
    × IsOver ts y
unfolding str_eq
run_pipeline-IsOver_example =
    run_pipeline-IsOver broken "p" same_case same_case catalogue true (some document) definition
      ("q" ∷ []) "project" (some fleet) 0 document_parsed refl

calm-IsCalm : IsCalm calm
calm-IsCalm = record {
  uncancelled = λ tick. refl;
  provisions = λ tick c. (checkout, refl);
  completes = λ tick rs. (map done rs, refl, sized rs, all_done rs);
  commits = λ tick t. ("sha", refl);
}
  where
    sized : (rs : List Request) → length (map done rs) ≡ length rs
    sized [] = refl
    sized (r ∷ rs) = ap suc (sized rs)

    all_done : (rs : List Request) → All (λ x. is_completed (some x) ≡ true) (map done rs)
    all_done [] = tt
    all_done (r ∷ rs) = (refl, all_done rs)

run_pipeline_succeeds_example :
    (y : Execution) × (run_pipeline calm "p"
        (some definition.steps)
        ("q" ∷ [])
        (some "project")
        (some fleet)
        0
      ≡ carried_out (some y))
    × (is_run_passed y.run.status ≡ true)
    × All (λ r. r.status ≡ passed) y.rows
unfolding str_eq
run_pipeline_succeeds_example =
    run_pipeline_succeeds calm "p" same_case same_case catalogue true (some document) definition
      ("q" ∷ []) "project" (some fleet) 0 document_parsed refl calm-IsCalm

run_pipeline-IsWithin_example :
    (y : Execution) × (run_pipeline broken "p" (some definition.steps) [] (some "project") none 0
      ≡ carried_out (some y))
    × IsWithin definition.steps y
run_pipeline-IsWithin_example =
    run_pipeline-IsWithin broken "p" same_case same_case catalogue true (some document) definition
      [] "project" none 0 document_parsed refl

abbrev stored_as : RunStatus → List StepStatus → StoredRun
stored_as status steps = record {
  run = record (new_run "p" 0) { status = status };
  steps = map (λ v. record (step_run_row (step_of "a" [])) { status = v }) steps;
}

abbrev left_behind : Stored
left_behind = record {
  runs =
      ("r1", stored_as run_running (passed ∷ running ∷ pending ∷ []))
      ∷ ("r2", stored_as run_failed (failed ∷ skipped ∷ []))
      ∷ [];
  active = ("r1", none) ∷ [];
}

abbrev run_of : String → Stored → Option RunStatus
run_of id x = Option.map (λ s. s.run.status) (get id x.runs)

unknown_run : (cancel_pipeline 9 "r3" none left_behind).1 ≡ run_not_found
unfolding cancel_pipeline get str_eq
unknown_run = refl

over_already : (cancel_pipeline 9 "r2" none left_behind).1 ≡ replied false
unfolding cancel_pipeline get str_eq
over_already = refl

-- The loop of the run reads the reason; its rows are left to it.
stopped_live :
    ((cancel_pipeline 9 "r1" (some " why ") left_behind).0.active ≡ ("r1", some "why") ∷ [])
    × (run_of "r1" (cancel_pipeline 9 "r1" (some " why ") left_behind).0 ≡ some run_running)
unfolding cancel_pipeline get put str_eq trim_start trim_end
stopped_live = (refl, refl)

recover_runs-Settles_example :
    ((k : String) (s : StoredRun)
      → get k left_behind.runs ≡ some s
      → (s' : StoredRun) × (get k (recover_runs 9 "restarted" left_behind).0.runs ≡ some s')
        × Settles 9 "restarted" s s')
    × ((recover_runs 9 "restarted" left_behind).1 ≡ 1)
unfolding get str_eq
recover_runs-Settles_example = recover_runs-Settles 9 "restarted" left_behind (refl, (refl, tt))

abbrev slow_step : PipelineStep
slow_step = record (step_of "a" []) { retries = some 2; retry_delay_ms = some 3 }

-- The operator cancels at the sixth tick, before the delay of three has passed.
abbrev impatient : World
impatient = record calm { cancel_reason = λ tick. if leb 6 tick then some "stop" else none }

slow_step-waits : wait_before_retry calm none [] (slow_step ∷ []) 4 ≡ (true, 7)
unfolding wait_before_retry
slow_step-waits = refl

slow_step-stopped : wait_before_retry impatient none [] (slow_step ∷ []) 4 ≡ (false, 6)
unfolding wait_before_retry
slow_step-stopped = refl
