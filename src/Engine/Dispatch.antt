-- ===== src/Engine/Dispatch.antt =====
-- `dispatch`, `dispatchWithRetries` and what they call.
use asterim.Prelude.{
  ℕ, zero, suc, ◌+◌, max, String, Bool, true, false, not, ◌&&◌, Option, none, some, List, [], ◌∷◌,
  ◌++◌, map, if◌then◌else◌, ltb, leb, str_eq, get_or, any, keep, Map, get, put, delete,
}
use asterim.Pipeline.Graph.{running, PipelineStep}
use asterim.Pipeline.Ancestors.{pipeline_ancestor_ids}
use asterim.Engine.Types.{
  completed, failed, DelegationResult, Fleet, step_started, Request, Provision, provisioned,
  unprovisioned, Delegated, answered, threw, World, Execution, update_rows,
}

abbrev pub is_completed : Option DelegationResult → Bool
is_completed none = false
is_completed (some r) = elim r.status [ completed ↦ true | _ ↦ false ]

-- `attempts.get(step.id) ?? d`.
abbrev pub attempts_of : PipelineStep → ℕ → Execution → ℕ
attempts_of s d x = get_or (get s.id x.attempts) d

unfoldable pub start_step : ℕ → PipelineStep → Execution → Execution
unfolding update_rows
start_step at s x =
    let n = suc (attempts_of s 0 x) in
    record x {
      statuses = put s.id running x.statuses;
      attempts = put s.id n x.attempts;
      rows =
          update_rows s.id
            (λ r. record r { status = running; started_at = some at; attempts = some n }) x.rows;
      log = x.log ++ step_started s.id n ∷ [];
    }

unfoldable pub start_each : ℕ → List PipelineStep → Execution → Execution
unfolding start_step
start_each at [] x = x
start_each at (s ∷ ss) x = start_each at ss (start_step at s x)

abbrev pub first_id : List PipelineStep → Option String
first_id [] = none
first_id (s ∷ ss) = some s.id

unfoldable pub start_batch : ℕ → List PipelineStep → Execution → Execution
unfolding start_each
start_batch at batch x =
    let y = start_each at batch x in
    record y { run = record (y.run) { current_step_id = first_id batch } }

-- A step that could not be started.
abbrev pub failure_of : String → DelegationResult
failure_of why = record {
  child_thread_id = "";
  status = failed;
  summary = why;
  output = "";
  worktree_path = none;
  diff = none;
}

abbrev pub is_false : Option Bool → Bool
is_false (some false) = true
is_false _ = false

-- The steps that can be dispatched, and the failures of the others.
pub record Prepared : Type 0 where
  pub execution : Execution
  pub failures : Map DelegationResult
  pub dispatchable : List PipelineStep

module _ (w : World) (fleet : Option Fleet) (steps : List PipelineStep) where
  abbrev pub known_chain : PipelineStep → List String
  known_chain s = keep (λ id. any (λ t. str_eq t.id id) steps) s.depends_on

  -- `null` is a step without a checkout of its own.
  abbrev pub provision_step_worktree : ℕ → PipelineStep → Option Fleet → Option Provision
  provision_step_worktree tick s none = none
  provision_step_worktree tick s (some f) =
      if is_false s.isolate_worktree
      then none
      else some (
          w.provision tick (record {
            repo_path = f.repo_path;
            step_id = s.id;
            base_commit = f.base_commit;
            chain_from = known_chain s;
          }))

  unfoldable pub prepare_answered : Option Provision → PipelineStep → Prepared → Prepared
  prepare_answered none s p = record p {
    execution = record (p.execution) {
      tick = suc p.execution.tick;
      worktrees = delete s.id p.execution.worktrees;
    };
    dispatchable = p.dispatchable ++ s ∷ [];
  }
  prepare_answered (some (provisioned t)) s p = record p {
    execution = record (p.execution) {
      tick = suc p.execution.tick;
      worktrees = put s.id t (delete s.id p.execution.worktrees);
    };
    dispatchable = p.dispatchable ++ s ∷ [];
  }
  prepare_answered (some (unprovisioned why)) s p = record p {
    execution = record (p.execution) {
      tick = suc p.execution.tick;
      worktrees = delete s.id p.execution.worktrees;
    };
    failures = put s.id (failure_of why) p.failures;
  }

  unfoldable pub prepare_each : List PipelineStep → Prepared → Prepared
  unfolding prepare_answered
  prepare_each [] p = p
  prepare_each (s ∷ ss) p =
      prepare_each ss
        (prepare_answered (provision_step_worktree (suc p.execution.tick) s fleet) s p)

-- `steps.find(step => step.id === id)`.
unfoldable pub find_step : String → List PipelineStep → Option PipelineStep
find_step id [] = none
find_step id (s ∷ ss) = let rest = find_step id ss in if str_eq s.id id then some s else rest

abbrev pub cons_told :
    Option PipelineStep
    → Option DelegationResult
    → List (PipelineStep × DelegationResult)
    → List (PipelineStep × DelegationResult)
cons_told (some s) (some r) rest = (s, r) ∷ rest
cons_told _ _ rest = rest

-- The ancestors that `buildStepContext` tells a step of, with their results.
unfoldable pub told_of :
    List PipelineStep → Map DelegationResult → List String → List (PipelineStep × DelegationResult)
unfolding find_step
told_of steps results [] = []
told_of steps results (id ∷ ids) =
    cons_told (find_step id steps) (get id results) (told_of steps results ids)

module _ (steps : List PipelineStep) (x : Execution) where
  unfoldable pub request_of : PipelineStep → Request
  unfolding told_of pipeline_ancestor_ids
  request_of s = record {
    step = s;
    told = told_of steps x.results (pipeline_ancestor_ids steps s.id);
    sandbox = get s.id x.worktrees;
  }

-- `outcome.results[position] ?? null`, matched to the steps by position.
unfoldable pub match_results : List PipelineStep → List DelegationResult → Map DelegationResult
match_results [] rs = []
match_results (s ∷ ss) [] = []
match_results (s ∷ ss) (r ∷ rs) = put s.id r (match_results ss rs)

unfoldable pub fail_all : List PipelineStep → String → Map DelegationResult
fail_all [] why = []
fail_all (s ∷ ss) why = put s.id (failure_of why) (fail_all ss why)

abbrev pub outcomes_of : List PipelineStep → Delegated → Map DelegationResult
outcomes_of steps (answered rs) = match_results steps rs
outcomes_of steps (threw why) = fail_all steps why

-- `a ?? b`.
abbrev pub first_of_two :
    Option DelegationResult → Option DelegationResult → Option DelegationResult
first_of_two none b = b
first_of_two (some r) b = some r

abbrev pub Outcomes : Type 0
Outcomes = List (PipelineStep × Option DelegationResult)

unfoldable pub answer : Map DelegationResult → Map DelegationResult → List PipelineStep → Outcomes
answer failures outcomes [] = []
answer failures outcomes (s ∷ ss) =
    (s, first_of_two (get s.id failures) (get s.id outcomes)) ∷ answer failures outcomes ss

-- `!cancelReason`, and the tick at which it is read.
abbrev pub unless_cancelled : Option String → ℕ → Bool × ℕ
unless_cancelled none tick = (true, tick)
unless_cancelled (some why) tick = (false, tick)

module _ (w : World) (fleet : Option Fleet) (steps : List PipelineStep) where
  -- The dispatchable steps are delegated together, if there are any.
  unfoldable pub delegate_prepared :
      List PipelineStep → List PipelineStep → Prepared → Execution × Outcomes
  unfolding match_results fail_all answer request_of
  delegate_prepared [] batch p = (p.execution, answer p.failures [] batch)
  delegate_prepared (s ∷ ss) batch p =
      let tick = suc p.execution.tick in
      let requests = map (request_of steps p.execution) (s ∷ ss) in
      (
        record (p.execution) { tick = tick },
        answer p.failures (outcomes_of (s ∷ ss) (w.delegate tick requests)) batch,
      )

  unfoldable pub dispatch : List PipelineStep → Execution → Execution × Outcomes
  unfolding start_batch prepare_each delegate_prepared
  dispatch batch x =
      let p = prepare_each w fleet steps batch (record {
        execution = start_batch (w.now x.tick) batch x;
        failures = [];
        dispatchable = [];
      }) in
      delegate_prepared p.dispatchable batch p

  -- The steps whose outcome is no `COMPLETED` and that may be tried again.
  abbrev pub may_retry : Execution → PipelineStep × Option DelegationResult → Bool
  may_retry x o = not (is_completed o.1) && leb (attempts_of o.0 1 x) (get_or o.0.retries 0)

  abbrev pub retrying : Execution → Outcomes → List PipelineStep
  retrying x os = map (λ o. o.0) (keep (may_retry x) os)

  unfoldable pub longest_delay : List PipelineStep → ℕ
  longest_delay [] = 0
  longest_delay (s ∷ ss) = max (get_or s.retry_delay_ms 0) (longest_delay ss)

  -- `waitBetweenAttempts`: whether the run goes on, and the tick. A slice lasts a millisecond at
  -- least, so the milliseconds of the delay are fuel enough.
  unfoldable pub wait_between_attempts : ℕ → ℕ → ℕ → Bool × ℕ
  wait_between_attempts zero deadline tick = unless_cancelled (w.cancel_reason tick) tick
  wait_between_attempts (suc fuel) deadline tick = elim (ltb (w.now tick) deadline) [
    | false ↦ unless_cancelled (w.cancel_reason tick) tick
    | true ↦ elim (w.cancel_reason tick) [
      | none ↦ wait_between_attempts fuel deadline (suc tick)
      | some why ↦ (false, tick)
    ]
  ]

  -- Only a delay is waited for.
  unfoldable pub wait_before_retry : List PipelineStep → ℕ → Bool × ℕ
  unfolding longest_delay wait_between_attempts
  wait_before_retry batch tick =
      let delay = longest_delay batch in
      if ltb 0 delay then wait_between_attempts delay (w.now tick + delay) tick else (true, tick)

  unfoldable pub replace_outcome : PipelineStep × Option DelegationResult → Outcomes → Outcomes
  replace_outcome o [] = []
  replace_outcome o ((s, r) ∷ os) =
      if str_eq s.id o.0.id then (s, o.1) ∷ os else (s, r) ∷ replace_outcome o os

  unfoldable pub replace_each : Outcomes → Outcomes → Outcomes
  unfolding replace_outcome
  replace_each [] os = os
  replace_each (o ∷ more) os = replace_each more (replace_outcome o os)

  abbrev pub Again : Type 0
  Again = Execution → Outcomes → Option (Execution × Outcomes)

  -- The next round of the loop is `again`.
  abbrev pub retry_waited : Again → List PipelineStep → Bool → Again
  retry_waited again batch false x os = some (x, os)
  retry_waited again batch true x os =
      let retried = dispatch batch x in again retried.0 (replace_each retried.1 os)

  abbrev pub retry_batch : Again → List PipelineStep → Again
  retry_batch again [] x os = some (x, os)
  retry_batch again (s ∷ ss) x os =
      let waited = wait_before_retry (s ∷ ss) x.tick in
      retry_waited again (s ∷ ss) waited.0 (record x { tick = waited.1 }) os

  abbrev pub retry_unless : Again → Option String → Again
  retry_unless again (some why) x os = some (x, os)
  retry_unless again none x os = retry_batch again (retrying x os) x os

  -- The loop of `dispatchWithRetries`: `none` means that the fuel ran out.
  unfoldable pub retry : ℕ → Again
  unfolding wait_before_retry dispatch replace_each
  retry zero x os = none
  retry (suc fuel) x os = retry_unless (retry fuel) (w.cancel_reason x.tick) x os

  -- Every retry takes one of the retries that the steps of the batch have left.
  abbrev pub retry_fuel : List PipelineStep → ℕ
  retry_fuel [] = 1
  retry_fuel (s ∷ ss) = suc (get_or s.retries 0) + retry_fuel ss

  unfoldable pub dispatch_with_retries :
      List PipelineStep → Execution → Option (Execution × Outcomes)
  unfolding dispatch retry
  dispatch_with_retries batch x =
      let first = dispatch batch x in retry (retry_fuel batch) first.0 first.1
