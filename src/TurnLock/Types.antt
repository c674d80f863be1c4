-- ===== src/TurnLock/Types.antt =====
-- The turn types (packages/shared/src/types/teamAgent.ts) and the state of an `AgentTurnLock`
-- (apps/server/src/services/ai/AgentTurnLock.ts).
use asterim.Prelude.{ℕ, String, Bool, Option, List, Map}

pub data TurnStatus : Type 0 where
  queued processing awaiting_approval completed failed cancelled : TurnStatus

pub data TurnState : Type 0 where
  idle processing_turn parked : TurnState

pub data RiskLevel : Type 0 where
  low medium high critical : RiskLevel

pub record PendingApprovalInfo : Type 0 where
  pub action_id : String
  pub command : Option String
  pub description : Option String
  pub risk_level : Option RiskLevel
  pub warnings : List String
  pub requested_at : Option ℕ

pub data ApprovalDecision : Type 0 where
  approved rejected : ApprovalDecision

pub data ApprovalPolicy : Type 0 where
  any_member admin_only turn_initiator : ApprovalPolicy

pub record ApprovalRecord : Type 0 where
  pub decision : ApprovalDecision
  pub policy : ApprovalPolicy
  pub resolved_by : String
  pub resolved_by_name : Option String
  pub comment : Option String
  pub resolved_at : ℕ

-- A submitted instruction. `context`, of type `unknown` in the source, is a text here.
pub record Turn : Type 0 where
  pub id : String
  pub team_thread_id : String
  pub user_id : String
  pub user_name : String
  pub instruction : String
  pub context : Option String
  pub status : TurnStatus
  pub queued_at : ℕ
  pub started_at : Option ℕ
  pub completed_at : Option ℕ
  pub error_message : Option String
  pub approval : Option ApprovalRecord
  pub pending_approval : Option PendingApprovalInfo

pub record ThreadContext : Type 0 where
  pub team_agent_id : String
  pub team_id : String
  pub project_id : Option String

-- `waiters` holds the promise of each unanswered `acquireTurn`, by turn id.
pub record ThreadLane : Type 0 where
  pub context : ThreadContext
  pub active : Option Turn
  pub queue : List Turn
  pub state : TurnState
  pub waiters : Map ℕ

pub data EventType : Type 0 where
  turn_queued turn_started turn_completed turn_cancelled : EventType

pub record EventPayload : Type 0 where
  pub team_thread_id : String
  pub team_agent_id : String
  pub team_id : String
  pub workspace_id : String
  pub project_id : Option String
  pub turn : Turn
  pub state : TurnState
  pub queue_position : Option ℕ
  pub queue_length : ℕ
  pub pending_approval : Option PendingApprovalInfo

pub data Effect : Type 0 where
  broadcast : EventType → EventPayload → Effect
  answer : ℕ → Bool → Effect

-- An `AgentTurnLock`. `settled` is a `Set`, oldest entry first; `next_promise` is the number of the
-- next promise.
pub record TurnLock : Type 0 where
  pub lanes : Map ThreadLane
  pub settled : List String
  pub next_promise : ℕ
  pub log : List Effect

-- What `acquireTurn` returns: `Promise.resolve(b)`, or a promise that `log` answers.
pub data Acquired : Type 0 where
  resolved : Bool → Acquired
  pending : ℕ → Acquired

-- `outcome?`, with both its fields absent when it is.
pub record Outcome : Type 0 where
  pub status : Option TurnStatus
  pub error_message : Option String

pub record QueueState : Type 0 where
  pub thread_id : String
  pub state : TurnState
  pub active_turn : Option Turn
  pub queued_turns : List Turn
