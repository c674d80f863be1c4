-- ===== src/Engine/Stored.antt =====
-- The runs in the database: `cancelPipeline` and `recoverRuns`.
use asterim.Prelude.{
  ℕ, String, Bool, true, false, Option, none, some, List, [], ◌∷◌, if◌then◌else◌, is_empty, get_or,
  trim, length, Map, get, put,
}
use asterim.Pipeline.Graph.{RunStatus, run_passed, run_failed, run_cancelled, cancelled}
use asterim.Engine.Types.{stopped, StepRunRow, RunRow, message}
use asterim.Engine.Loop.{is_open}

-- A row of `pipeline_runs`, with its rows of `pipeline_step_runs`.
pub record StoredRun : Type 0 where
  pub run : RunRow
  pub steps : List StepRunRow

-- The database, and `cancelReason` of the runs that this process executes.
pub record Stored : Type 0 where
  pub runs : Map StoredRun
  pub active : Map (Option String)

abbrev pub is_terminal_pipeline_run_status : RunStatus → Bool
is_terminal_pipeline_run_status run_passed = true
is_terminal_pipeline_run_status run_failed = true
is_terminal_pipeline_run_status run_cancelled = true
is_terminal_pipeline_run_status _ = false

-- `UPDATE pipeline_step_runs … AND status IN ('PENDING', 'RUNNING')`.
abbrev pub cancel_row_if : Bool → ℕ → String → StepRunRow → StepRunRow
cancel_row_if false at why r = r
cancel_row_if true at why r = record r {
  status = cancelled;
  completed_at = some at;
  error_message = some (message (stopped why));
}

abbrev pub cancel_row : ℕ → String → StepRunRow → StepRunRow
cancel_row at why r = cancel_row_if (is_open (some r.status)) at why r

abbrev pub cancel_rows : ℕ → String → List StepRunRow → List StepRunRow
cancel_rows at why [] = []
cancel_rows at why (r ∷ rs) = cancel_row at why r ∷ cancel_rows at why rs

-- The two statements that settle a run which nothing executes.
abbrev pub cancel_stored : ℕ → String → StoredRun → StoredRun
cancel_stored at why s = record {
  run = record (s.run) {
    status = run_cancelled;
    completed_at = some at;
    error_message = some (message (stopped why));
  };
  steps = cancel_rows at why s.steps;
}

abbrev pub update_run :
    (StoredRun → StoredRun) → String → Option StoredRun → Map StoredRun → Map StoredRun
update_run change id none runs = runs
update_run change id (some s) runs = put id (change s) runs

abbrev pub default_reason : String
default_reason = "Pipeline cancelled by operator"

unfoldable pub reason_or_default : Option String → String
unfolding trim
reason_or_default reason =
    let said = trim (get_or reason "") in if is_empty said then default_reason else said

pub data CancelAnswer : Type 0 where
  run_not_found : CancelAnswer
  replied : Bool → CancelAnswer

abbrev pub cancel_open : ℕ → String → String → StoredRun → Option (Option String) → Stored → Stored
cancel_open at id why s none x = record x { runs = put id (cancel_stored at why s) x.runs }
cancel_open at id why s (some before) x = record x { active = put id (some why) x.active }

abbrev pub cancel_found :
    ℕ → String → Option String → Option StoredRun → Stored → Stored × CancelAnswer
cancel_found at id reason none x = (x, run_not_found)
cancel_found at id reason (some s) x =
    if is_terminal_pipeline_run_status s.run.status
    then (x, replied false)
    else (cancel_open at id (reason_or_default reason) s (get id x.active) x, replied true)

unfoldable pub cancel_pipeline : ℕ → String → Option String → Stored → Stored × CancelAnswer
unfolding reason_or_default
cancel_pipeline at id reason x = cancel_found at id reason (get id x.runs) x

-- `SELECT id FROM pipeline_runs WHERE status IN ('PENDING', 'RUNNING')`.
unfoldable pub unfinished : Map StoredRun → List String
unfinished [] = []
unfinished ((id, s) ∷ runs) =
    let rest = unfinished runs in
    if is_terminal_pipeline_run_status s.run.status then rest else id ∷ rest

unfoldable pub recover_each : ℕ → String → List String → Map StoredRun → Map StoredRun
recover_each at why [] runs = runs
recover_each at why (id ∷ ids) runs =
    recover_each at why ids (update_run (cancel_stored at why) id (get id runs) runs)

unfoldable pub recover_runs : ℕ → String → Stored → Stored × ℕ
unfolding unfinished recover_each
recover_runs at why x =
    let ids = unfinished x.runs in (record x { runs = recover_each at why ids x.runs }, length ids)
