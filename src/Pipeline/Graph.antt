-- ===== src/Pipeline/Graph.antt =====
-- The statuses of a run and its steps, `topologicalPipelineOrder`, `readyPipelineStepIds` and
-- `aggregatePipelineRunStatus`. The `while` loop runs on fuel.
use asterim.Prelude.{
  ℕ, zero, suc, ◌+◌, String, Bool, true, false, ◌&&◌, Option, none, some, List, [], ◌∷◌, ◌++◌, map,
  if◌then◌else◌, ◌==◌, get_or, length, keep, any, all, includes, unique, Map, get, put,
  count_values,
}

pub data RunStatus : Type 0 where
  run_pending run_running run_passed run_failed run_cancelled : RunStatus

pub data StepStatus : Type 0 where
  pending running passed failed skipped cancelled : StepStatus

pub record PipelineStep : Type 0 where
  pub id : String
  pub name : String
  pub role_profile_id : String
  pub task : String
  pub depends_on : List String
  pub input_context : Option String
  pub timeout_ms : Option ℕ
  pub isolate_worktree : Option Bool
  pub verify_pipeline : Option Bool
  pub verification_steps : Option (List String)
  pub retries : Option ℕ
  pub retry_delay_ms : Option ℕ

-- How many dependencies a step still waits for: the code subtracts without a floor.
pub data Left : Type 0 where
  pos : ℕ → Left
  below_zero : Left

abbrev pub one_less : Left → Left
one_less (pos zero) = below_zero
one_less (pos (suc n)) = pos n
one_less below_zero = below_zero

abbrev pub is_zero : Left → Bool
is_zero (pos zero) = true
is_zero _ = false

abbrev pub ids_of : List PipelineStep → List String
ids_of steps = map (λ s. s.id) steps

-- The distinct dependencies of a step that are steps.
unfoldable pub known_dependencies : List String → PipelineStep → List String
unfolding unique
known_dependencies ids s = unique (keep (λ d. includes d ids) s.depends_on)

pub record Plan : Type 0 where
  pub outstanding : Map Left
  pub dependents : Map (List String)

unfoldable pub add_dependent : String → List String → Map (List String) → Map (List String)
add_dependent id [] m = m
add_dependent id (d ∷ ds) m = add_dependent id ds (put d (get_or (get d m) [] ++ id ∷ []) m)

abbrev pub plan_step : String → List String → Plan → Plan
plan_step id ds p = record {
  outstanding = put id (pos (length ds)) p.outstanding;
  dependents = add_dependent id ds p.dependents;
}

unfoldable pub plan_steps : List String → List PipelineStep → Plan → Plan
unfolding known_dependencies add_dependent
plan_steps ids [] p = p
plan_steps ids (s ∷ ss) p = plan_steps ids ss (plan_step s.id (known_dependencies ids s) p)

abbrev pub found_zero : Option Left → Bool
found_zero none = false
found_zero (some n) = is_zero n

-- The steps that wait for nothing.
unfoldable pub first_queue : Map Left → List PipelineStep → List String
first_queue m [] = []
first_queue m (s ∷ ss) =
    let rest = first_queue m ss in if found_zero (get s.id m) then s.id ∷ rest else rest

-- The loop over the dependents of the step that is taken: what they still wait for, and those that
-- wait no longer.
unfoldable pub release_dependents : List String → Map Left → Map Left × List String
release_dependents [] m = (m, [])
release_dependents (a ∷ rest) m =
    let left = one_less (get_or (get a m) (pos 0)) in
    let (m', pushed) = release_dependents rest (put a left m) in
    (m', if is_zero left then a ∷ pushed else pushed)

pub record Walk : Type 0 where
  pub waiting : Map Left
  pub queue : List String
  pub order : List String

unfoldable pub take_next : Map (List String) → String → List String → Walk → Walk
unfolding release_dependents
take_next dependents id rest w =
    let (m, pushed) = release_dependents (get_or (get id dependents) []) w.waiting in
    record { waiting = m; queue = rest ++ pushed; order = w.order ++ id ∷ [] }

unfoldable pub walk : ℕ → Map (List String) → Walk → Walk
unfolding take_next
walk zero dependents w = w
walk (suc n) dependents w = elim w.queue [
  | [] ↦ w
  | id ∷ rest ↦ walk n dependents (take_next dependents id rest w)
]

abbrev pub is_positive : Left → Bool
is_positive (pos (suc n)) = true
is_positive _ = false

-- Each turn of the loop takes one from the queue, and a step comes to the queue by coming to zero.
abbrev pub fuel_of : Walk → ℕ
fuel_of w = length w.queue + count_values is_positive w.waiting

unfoldable pub first_walk : List PipelineStep → Plan → Walk
unfolding first_queue
first_walk steps p = record {
  waiting = p.outstanding;
  queue = first_queue p.outstanding steps;
  order = [];
}

unfoldable pub finished_walk : List PipelineStep → Walk
unfolding plan_steps first_walk walk
finished_walk steps =
    let p = plan_steps (ids_of steps) steps (record { outstanding = []; dependents = [] }) in
    let w = first_walk steps p in walk (fuel_of w) p.dependents w

unfoldable pub topological_pipeline_order : List PipelineStep → Option (List String)
unfolding finished_walk unique
topological_pipeline_order steps =
    let order = (finished_walk steps).order in
    if length order == length (unique (ids_of steps)) then some order else none

abbrev pub is_passed : Option StepStatus → Bool
is_passed (some passed) = true
is_passed _ = false

abbrev pub not_started : Option StepStatus → Bool
not_started none = true
not_started (some pending) = true
not_started _ = false

abbrev pub is_ready : Map StepStatus → PipelineStep → Bool
is_ready statuses s =
    not_started (get s.id statuses) && all (λ d. is_passed (get d statuses)) s.depends_on

unfoldable pub ready_pipeline_step_ids : List PipelineStep → Map StepStatus → List String
ready_pipeline_step_ids steps statuses = ids_of (keep (is_ready statuses) steps)

abbrev pub same_status : StepStatus → StepStatus → Bool
same_status pending pending = true
same_status running running = true
same_status passed passed = true
same_status failed failed = true
same_status skipped skipped = true
same_status cancelled cancelled = true
same_status _ _ = false

unfoldable pub aggregate_pipeline_run_status : List StepStatus → RunStatus
aggregate_pipeline_run_status statuses =
    if any (same_status cancelled) statuses
    then run_cancelled
    else if any (same_status failed) statuses
    then run_failed
    else if any (same_status skipped) statuses
    then run_failed
    else if any (same_status running) statuses
    then run_running
    else if any (same_status pending) statuses
    then run_running
    else run_passed
