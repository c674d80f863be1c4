-- ===== src/Engine/Loop.antt =====
-- `execute`: which steps are ready, what became of them, and how the run ends.
use asterim.Prelude.{
  ℕ, zero, suc, max, String, Bool, true, false, Option, none, some, List, [], ◌∷◌, ◌++◌, map,
  if◌then◌else◌, ltb, get_or, take, length, Map, get, put,
}
use mathlib.Core.Option
use asterim.Pipeline.Graph.{
  StepStatus, pending, running, passed, failed, skipped, cancelled, PipelineStep,
  ready_pipeline_step_ids, aggregate_pipeline_run_status,
}
use asterim.Engine.Types.{
  DelegationResult, PipelineStepWorktree, Fleet, Reason, stopped, upstream_did_not_pass,
  step_did_not_pass, not_committed, child_said, did_not_complete, ErrorMessage, StepRunRow, RunRow,
  step_completed, Settlement, committed, uncommitted, World, Execution, pipeline_max_parallel_steps,
  max_pipeline_step_chars, truncate, update_rows, message, text_or_null,
}
use asterim.Engine.Dispatch.{is_completed, attempts_of, Outcomes, dispatch_with_retries, find_step}

abbrev pub is_open : Option StepStatus → Bool
is_open (some pending) = true
is_open (some running) = true
is_open _ = false

abbrev pub settled_step : ℕ → String → StepStatus → Reason → Execution → Execution
settled_step at id status reason x = record x {
  statuses = put id status x.statuses;
  rows =
      update_rows id
        (λ r. record r {
          status = status;
          completed_at = some at;
          error_message = some (message reason);
        })
        x.rows;
}

unfoldable pub settle_step : ℕ → PipelineStep → StepStatus → Reason → Execution → Execution
unfolding update_rows
settle_step at s status reason x =
    if is_open (get s.id x.statuses) then settled_step at s.id status reason x else x

unfoldable pub settle_remaining :
    ℕ → List PipelineStep → StepStatus → Reason → Execution → Execution
unfolding settle_step
settle_remaining at [] status reason x = x
settle_remaining at (s ∷ ss) status reason x =
    settle_remaining at ss status reason (settle_step at s status reason x)

abbrev pub values : Map StepStatus → List StepStatus
values m = map (λ e. e.1) m

unfoldable pub finish : ℕ → Option Reason → Execution → Execution
unfolding aggregate_pipeline_run_status
finish at reason x = record x {
  run = record (x.run) {
    status = aggregate_pipeline_run_status (values x.statuses);
    completed_at = some at;
    error_message = Option.map message reason;
  };
}

-- What the loop learns of one step of the batch before it is recorded.
pub record Verdict : Type 0 where
  pub status : StepStatus
  pub commit_sha : Option String
  pub failure : Option Reason
  pub tick : ℕ

abbrev pub unpassed_status : Option String → StepStatus
unpassed_status none = failed
unpassed_status (some why) = cancelled

abbrev pub settled_verdict : ℕ → Settlement → Verdict
settled_verdict tick (committed sha) = record {
  status = passed;
  commit_sha = some sha;
  failure = none;
  tick = tick;
}
settled_verdict tick (uncommitted why) = record {
  status = failed;
  commit_sha = none;
  failure = some (not_committed why);
  tick = tick;
}

-- The work of a step that passed is committed to its branch, unless the run was stopped.
abbrev pub passed_verdict : World → ℕ → Option String → Option PipelineStepWorktree → Verdict
passed_verdict w tick none (some t) = settled_verdict (suc tick) (w.settle (suc tick) t)
passed_verdict w tick _ _ = record {
  status = passed;
  commit_sha = none;
  failure = none;
  tick = tick;
}

abbrev pub verdict_of :
    World → ℕ → Option String → Option PipelineStepWorktree → Option DelegationResult → Verdict
verdict_of w tick why t r =
    if is_completed r
    then passed_verdict w tick why t
    else record { status = unpassed_status why; commit_sha = none; failure = none; tick = tick }

abbrev pub said : Option DelegationResult → Reason
said none = did_not_complete
said (some r) = child_said r.summary

abbrev pub failure_reason : Verdict → Option DelegationResult → Option String → Option Reason
failure_reason v r why = elim v.status [
  | passed ↦ none
  | cancelled ↦ some (stopped (get_or why "Pipeline cancelled by operator"))
  | _ ↦ some (get_or v.failure (said r))
]

abbrev pub noted : ℕ → Option Reason → Option ErrorMessage
noted n none = none
noted n (some reason) =
    some (record { reason = reason; after_attempts = if ltb 1 n then some n else none })

abbrev pub cut : String → Option String
cut s = Option.map (λ t. truncate t max_pipeline_step_chars) (text_or_null s)

abbrev pub output_of : Option DelegationResult → Option String
output_of none = none
output_of (some r) = cut r.output

abbrev pub diff_of : Option DelegationResult → Option String
diff_of none = none
diff_of (some r) = cut (get_or r.diff "")

abbrev pub thread_of : Option DelegationResult → Option String
thread_of none = none
thread_of (some r) = text_or_null r.child_thread_id

abbrev pub path_of : Option DelegationResult → Option String
path_of none = none
path_of (some r) = r.worktree_path

-- `recordStepOutcome`.
unfoldable pub record_row :
    ℕ
    → Verdict
    → ℕ
    → Option PipelineStepWorktree
    → Option DelegationResult
    → Option String
    → StepRunRow
    → StepRunRow
unfolding truncate
record_row at v n t r why row =
    let attempted = max 1 n in
    record row {
      status = v.status;
      thread_id = thread_of r;
      worktree_path = path_of r;
      worktree_branch = Option.map (λ t'. t'.branch) t;
      commit_sha = v.commit_sha;
      attempts = some attempted;
      diff = diff_of r;
      output = output_of r;
      completed_at = some at;
      error_message = noted attempted (failure_reason v r why);
    }

abbrev pub put_result :
    String → Option DelegationResult → Map DelegationResult → Map DelegationResult
put_result id none m = m
put_result id (some r) m = put id r m

-- The body of the loop over the batch.
unfoldable pub record_outcome :
    World → Option String → PipelineStep × Option DelegationResult → Execution → Execution
unfolding record_row update_rows
record_outcome w why (s, r) x =
    let t = get s.id x.worktrees in
    let v = verdict_of w x.tick why t r in
    record x {
      tick = v.tick;
      statuses = put s.id v.status x.statuses;
      results = put_result s.id r x.results;
      rows = update_rows s.id (record_row (w.now v.tick) v (attempts_of s 0 x) t r why) x.rows;
      log = x.log ++ step_completed s.id v.status ∷ [];
    }

unfoldable pub record_outcomes : World → Option String → Outcomes → Execution → Execution
unfolding record_outcome
record_outcomes w why [] x = x
record_outcomes w why (o ∷ os) x = record_outcomes w why os (record_outcome w why o x)

abbrev pub is_unpassed : Option StepStatus → Bool
is_unpassed (some passed) = false
is_unpassed _ = true

-- `failed[0]`.
unfoldable pub first_failed : Map StepStatus → List PipelineStep → Option String
first_failed m [] = none
first_failed m (s ∷ ss) =
    let rest = first_failed m ss in if is_unpassed (get s.id m) then some s.id else rest

abbrev pub cons_found : Option PipelineStep → List PipelineStep → List PipelineStep
cons_found none ss = ss
cons_found (some s) ss = s ∷ ss

unfoldable pub find_steps : List String → List PipelineStep → List PipelineStep
unfolding find_step
find_steps [] steps = []
find_steps (id ∷ ids) steps = cons_found (find_step id steps) (find_steps ids steps)

-- What follows a batch: the run is over, or goes on.
pub data After : Type 0 where
  over : Execution → After
  on : Execution → After

module _ (w : World) (fleet : Option Fleet) (steps : List PipelineStep) where
  abbrev pub stop : String → Execution → Execution
  stop why x =
      finish (w.now x.tick) (some (stopped why))
        (settle_remaining (w.now x.tick) steps cancelled (stopped why) x)

  abbrev pub fail : String → Execution → Execution
  fail id x =
      finish (w.now x.tick) (some (step_did_not_pass id))
        (settle_remaining (w.now x.tick) steps skipped upstream_did_not_pass x)

  abbrev pub after_failed : Option String → Execution → After
  after_failed (some id) x = over (fail id x)
  after_failed none x = on x

  unfoldable pub after_batch : List PipelineStep → Option String → Execution → After
  unfolding first_failed settle_remaining finish
  after_batch batch (some why) x = over (stop why x)
  after_batch batch none x = after_failed (first_failed x.statuses batch) x

  abbrev pub next_batch : Execution → List PipelineStep
  next_batch x =
      find_steps (take pipeline_max_parallel_steps (ready_pipeline_step_ids steps x.statuses)) steps

  abbrev pub settle_batch : List PipelineStep → Execution × Outcomes → After
  settle_batch batch (x, os) =
      let why = w.cancel_reason x.tick in after_batch batch why (record_outcomes w why os x)

  abbrev pub turn_batch : List PipelineStep → Execution → Option After
  turn_batch [] x = some (over (finish (w.now x.tick) none x))
  turn_batch (s ∷ ss) x =
      Option.map (settle_batch (s ∷ ss)) (dispatch_with_retries w fleet steps (s ∷ ss) x)

  abbrev pub turn_unless : Option String → Execution → Option After
  turn_unless (some why) x = some (over (stop why x))
  turn_unless none x = turn_batch (next_batch x) x

  -- One turn of the loop: `none` means that the fuel of the retries ran out.
  unfoldable pub turn : Execution → Option After
  unfolding ready_pipeline_step_ids find_steps dispatch_with_retries record_outcomes after_batch
      settle_remaining finish
  turn x = turn_unless (w.cancel_reason x.tick) x

  unfoldable pub loop : ℕ → Execution → Option Execution
  unfolding turn
  loop zero x = none
  loop (suc fuel) x = elim (turn x) [
    | none ↦ none
    | some (over y) ↦ some y
    | some (on y) ↦ loop fuel y
  ]

  abbrev pub all_pending : List PipelineStep → Map StepStatus
  all_pending [] = []
  all_pending (s ∷ ss) = put s.id pending (all_pending ss)

  -- Each turn that goes on has a step pass that was pending before.
  unfoldable pub execute : ℕ → List StepRunRow → RunRow → Option Execution
  unfolding loop
  execute tick rows run = loop (suc (length steps)) (record {
    tick = tick;
    statuses = all_pending steps;
    results = [];
    worktrees = [];
    attempts = [];
    rows = rows;
    run = run;
    log = [];
  })
