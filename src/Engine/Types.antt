-- ===== src/Engine/Types.antt =====
-- The rows of a run and its steps, what the loop of `execute` holds, and what answers its awaits.
use asterim.Prelude.{
  ℕ, ◌-◌, String, Option, none, some, List, [], ◌∷◌, if◌then◌else◌, leb, str_eq, is_empty,
  text_units, take_units, join, Map,
}
use asterim.Pipeline.Graph.{RunStatus, StepStatus, PipelineStep}

pub data DelegationStatus : Type 0 where
  completed failed timeout : DelegationStatus

-- What the engine reads of a `DelegationResult`.
pub record DelegationResult : Type 0 where
  pub child_thread_id : String
  pub status : DelegationStatus
  pub summary : String
  pub output : String
  pub worktree_path : Option String
  pub diff : Option String

pub record PipelineStepWorktree : Type 0 where
  pub path : String
  pub branch : String
  pub base_commit : String

-- `repoPath` and `baseCommit` of a run that has a fleet.
pub record Fleet : Type 0 where
  pub repo_path : String
  pub base_commit : String

-- Why a step or a run has its status.
pub data Reason : Type 0 where
  stopped : String → Reason
  upstream_did_not_pass : Reason
  step_did_not_pass : String → Reason
  not_committed : String → Reason
  child_said : String → Reason
  did_not_complete : Reason

-- An error message, with the number of attempts if there was more than one.
pub record ErrorMessage : Type 0 where
  pub reason : Reason
  pub after_attempts : Option ℕ

pub record StepRunRow : Type 0 where
  pub step_id : String
  pub step_name : String
  pub role_profile_id : String
  pub status : StepStatus
  pub thread_id : Option String
  pub worktree_path : Option String
  pub worktree_branch : Option String
  pub commit_sha : Option String
  pub attempts : Option ℕ
  pub diff : Option String
  pub output : Option String
  pub started_at : Option ℕ
  pub completed_at : Option ℕ
  pub error_message : Option ErrorMessage

pub record RunRow : Type 0 where
  pub pipeline_id : String
  pub status : RunStatus
  pub current_step_id : Option String
  pub started_at : ℕ
  pub completed_at : Option ℕ
  pub error_message : Option ErrorMessage

-- What is published of a step: that it started, in which attempt, and how it ended.
pub data Event : Type 0 where
  step_started : String → ℕ → Event
  step_completed : String → StepStatus → Event

-- A brief: the step, the results of its ancestors that it is told of, and its checkout.
pub record Request : Type 0 where
  pub step : PipelineStep
  pub told : List (PipelineStep × DelegationResult)
  pub sandbox : Option PipelineStepWorktree

pub record Checkout : Type 0 where
  pub repo_path : String
  pub step_id : String
  pub base_commit : String
  pub chain_from : List String

pub data Provision : Type 0 where
  provisioned : PipelineStepWorktree → Provision
  unprovisioned : String → Provision

pub data Delegated : Type 0 where
  answered : List DelegationResult → Delegated
  threw : String → Delegated

pub data Settlement : Type 0 where
  committed : String → Settlement
  uncommitted : String → Settlement

-- Every await lets the rest of the Core run. The ticks count the awaits, and say of each what the
-- engine meets behind it: the clock, the reason of a cancellation if one was recorded, and the answers
-- of the worktree fleet and of the delegation service.
pub record World : Type 0 where
  pub now : ℕ → ℕ
  pub cancel_reason : ℕ → Option String
  pub provision : ℕ → Checkout → Provision
  pub delegate : ℕ → List Request → Delegated
  pub settle : ℕ → PipelineStepWorktree → Settlement

-- The variables of `execute`, the rows of its run, and what was published.
pub record Execution : Type 0 where
  pub tick : ℕ
  pub statuses : Map StepStatus
  pub results : Map DelegationResult
  pub worktrees : Map PipelineStepWorktree
  pub attempts : Map ℕ
  pub rows : List StepRunRow
  pub run : RunRow
  pub log : List Event

abbrev pub pipeline_max_parallel_steps : ℕ
pipeline_max_parallel_steps = 4

abbrev pub max_pipeline_step_chars : ℕ
max_pipeline_step_chars = 20000

-- `truncate`: the marker has twelve code units, and a character that the cut would halve is left out.
unfoldable pub truncate : String → ℕ → String
unfolding text_units take_units join
truncate s limit =
    if leb (text_units s) limit then s else join (take_units (limit - 12) s) "\n[truncated]"

-- `UPDATE pipeline_step_runs … WHERE pipeline_run_id = ? AND step_id = ?`.
unfoldable pub update_rows : String → (StepRunRow → StepRunRow) → List StepRunRow → List StepRunRow
update_rows id change [] = []
update_rows id change (r ∷ rs) =
    (if str_eq r.step_id id then change r else r) ∷ update_rows id change rs

abbrev pub message : Reason → ErrorMessage
message reason = record { reason = reason; after_attempts = none }

-- `value || null` for a text.
abbrev pub text_or_null : String → Option String
text_or_null s = if is_empty s then none else some s
