-- ===== src/TurnLock/Methods.antt =====
-- The public methods of `AgentTurnLock` (apps/server/src/services/ai/AgentTurnLock.ts).
use asterim.Prelude.{
  ℕ, ◌+◌, String, Bool, true, false, Option, none, some, List, [], ◌∷◌, ◌++◌, if◌then◌else◌, str_eq,
  get_or, is_some, includes, get, put, delete, map, keys,
}
use asterim.TurnLock.Types.{
  TurnStatus, TurnState, PendingApprovalInfo, Turn, ThreadContext, ThreadLane, Effect, TurnLock,
  Acquired, Outcome, QueueState, queued, processing, awaiting_approval, completed, cancelled, idle,
  processing_turn, parked, turn_queued, turn_started, turn_completed, turn_cancelled, answer,
  resolved, pending,
}
use asterim.TurnLock.Lane.{
  is_active, find_index, position_of, emit, lane_of, mark_settled, answer_waiter, pump, write,
}

-- `enqueue`: the lock, and how many turns are ahead.
unfoldable pub enqueue : ℕ → Turn → ThreadContext → TurnLock → TurnLock × Option ℕ
unfolding lane_of emit position_of
enqueue now item context s =
    let lane = record (lane_of item.team_thread_id (some context) s) { context = context } in
    let turn = record item { status = queued } in
    let longer = record lane { queue = lane.queue ++ turn ∷ [] } in
    (
      write item.team_thread_id (longer, emit turn_queued longer turn ∷ []) s,
      position_of longer turn.id,
    )

-- The promise of the last lines of `acquireTurn`: it registers its resolver, then pumps.
unfoldable pub await_turn : ℕ → String → String → TurnLock → TurnLock × Acquired
unfolding lane_of pump
await_turn now thread_id turn_id s =
    let lane = lane_of thread_id none s in
    let waiting = record lane { waiters = put turn_id s.next_promise lane.waiters } in
    (
      write thread_id (pump now waiting) (record s { next_promise = s.next_promise + 1 }),
      pending s.next_promise,
    )

abbrev pub unknown_turn : ℕ → String → String → Turn
unknown_turn now thread_id turn_id = record {
  id = turn_id;
  team_thread_id = thread_id;
  user_id = "unknown";
  user_name = "unknown";
  instruction = "";
  context = none;
  status = queued;
  queued_at = now;
  started_at = none;
  completed_at = none;
  error_message = none;
  approval = none;
  pending_approval = none;
}

unfoldable pub acquire_turn :
    ℕ → String → String → Option ThreadContext → TurnLock → TurnLock × Acquired
unfolding lane_of find_index await_turn enqueue
acquire_turn now thread_id turn_id context s =
    let lane = lane_of thread_id context s in
    let opened = record s { lanes = put thread_id lane s.lanes } in
    let queued_now = (enqueue now (unknown_turn now thread_id turn_id) lane.context opened).0 in
    if is_active lane.active turn_id
    then (opened, resolved true)
    else if is_some (find_index turn_id lane.queue)
    then await_turn now thread_id turn_id opened
    else if includes turn_id s.settled
    then (opened, resolved false)
    else await_turn now thread_id turn_id queued_now

abbrev pub settled_as : Option TurnStatus → TurnStatus
settled_as none = completed
settled_as (some processing) = completed
settled_as (some awaiting_approval) = completed
settled_as (some status) = status

-- `if (outcome?.errorMessage)`: the empty text counts as none.
abbrev pub kept_message : Option String → Option String → Option String
kept_message none old = old
kept_message (some m) old = if str_eq m "" then old else some m

abbrev pub finished_turn : ℕ → Outcome → Turn → Turn
finished_turn now outcome turn = record turn {
  status = settled_as outcome.status;
  error_message = kept_message outcome.error_message turn.error_message;
  completed_at = some (get_or turn.completed_at now);
}

-- The lane's part of `releaseTurn`.
unfoldable pub release_lane : ℕ → Outcome → Turn → ThreadLane → ThreadLane × List Effect
unfolding emit pump
release_lane now outcome turn lane =
    let freed = record lane { active = none; state = idle } in
    let after = pump now freed in
    (after.0, emit turn_completed freed (finished_turn now outcome turn) ∷ after.1)

-- A release of a turn that does not hold the lock is ignored.
unfoldable pub release_from :
    ℕ → String → String → Outcome → TurnLock → ThreadLane → Option Turn → TurnLock
unfolding release_lane mark_settled
release_from now thread_id turn_id outcome s lane none = s
release_from now thread_id turn_id outcome s lane (some t) =
    if str_eq t.id turn_id
    then write thread_id (release_lane now outcome t lane)
        (record s { settled = mark_settled t.id s.settled })
    else s

unfoldable pub release_turn : ℕ → String → String → Outcome → TurnLock → TurnLock
unfolding release_from
release_turn now thread_id turn_id outcome s = elim (get thread_id s.lanes) [
  | none ↦ s
  | some lane ↦ release_from now thread_id turn_id outcome s lane lane.active
]

-- `findIndex` and `splice(index, 1)`: the first turn with the id, and the queue without it.
unfoldable pub take_out : String → List Turn → Option (Turn × List Turn)
take_out turn_id [] = none
take_out turn_id (t ∷ ts) =
    if str_eq t.id turn_id
    then some (t, ts)
    else elim (take_out turn_id ts) [ none ↦ none | some (u, rest) ↦ some (u, t ∷ rest) ]

-- The lane's part of `cancelTurn`, once the turn is out of the queue.
unfoldable pub cancel_lane : ℕ → String → Turn → List Turn → ThreadLane → ThreadLane × List Effect
unfolding emit pump
cancel_lane now turn_id turn rest lane =
    let withdrawn = record turn { status = cancelled; completed_at = some now } in
    let shorter = record lane { queue = rest; waiters = delete turn_id lane.waiters } in
    let after = pump now shorter in
    (
      after.0,
      answer_waiter (get turn_id lane.waiters) false
          ++ (emit turn_cancelled shorter withdrawn ∷ after.1),
    )

unfoldable pub cancel_from :
    ℕ → String → String → TurnLock → ThreadLane → Option (Turn × List Turn) → TurnLock × Bool
unfolding cancel_lane mark_settled
cancel_from now thread_id turn_id s lane none = (s, false)
cancel_from now thread_id turn_id s lane (some (turn, rest)) = (
  write thread_id (cancel_lane now turn_id turn rest lane)
      (record s { settled = mark_settled turn.id s.settled }),
  true,
)

unfoldable pub cancel_turn : ℕ → String → String → TurnLock → TurnLock × Bool
unfolding cancel_from take_out
cancel_turn now thread_id turn_id s = elim (get thread_id s.lanes) [
  | none ↦ (s, false)
  | some lane ↦ cancel_from now thread_id turn_id s lane (take_out turn_id lane.queue)
]

-- The active turn of a lane, rewritten, with the lane's state beside it, and announced.
abbrev pub restate : TurnState → Turn → ThreadLane → ThreadLane × List Effect
restate state turn lane =
    let lane' = record lane { active = some turn; state = state } in
    (lane', emit turn_started lane' turn ∷ [])

abbrev pub parked_turn : Option PendingApprovalInfo → Turn → Turn
parked_turn none turn = record turn { status = awaiting_approval }
parked_turn (some p) turn = record turn { status = awaiting_approval; pending_approval = some p }

abbrev pub resumed_turn : Turn → Turn
resumed_turn turn = record turn { status = processing; pending_approval = none }

-- The guard that `markAwaitingApproval` and `resumeFromApproval` share, and the change they make.
unfoldable pub with_active :
    String
    → String
    → (Turn → ThreadLane → ThreadLane × List Effect)
    → TurnLock
    → ThreadLane
    → Option Turn
    → TurnLock × Bool
with_active thread_id turn_id change s lane none = (s, false)
with_active thread_id turn_id change s lane (some t) =
    if str_eq t.id turn_id then (write thread_id (change t lane) s, true) else (s, false)

unfoldable pub mark_awaiting_approval :
    String → String → Option PendingApprovalInfo → TurnLock → TurnLock × Bool
unfolding with_active
mark_awaiting_approval thread_id turn_id info s = elim (get thread_id s.lanes) [
  | none ↦ (s, false)
  | some lane ↦
      with_active thread_id turn_id (λ t. restate parked (parked_turn info t)) s lane lane.active
]

unfoldable pub resume_from_approval : String → String → TurnLock → TurnLock × Bool
unfolding with_active
resume_from_approval thread_id turn_id s = elim (get thread_id s.lanes) [
  | none ↦ (s, false)
  | some lane ↦
      with_active thread_id turn_id (λ t. restate processing_turn (resumed_turn t)) s lane
        lane.active
]

unfoldable pub get_queue_state : String → TurnLock → QueueState
get_queue_state thread_id s = elim (get thread_id s.lanes) [
  | none ↦ record { thread_id = thread_id; state = idle; active_turn = none; queued_turns = [] }
  | some lane ↦ record {
    thread_id = thread_id;
    state = lane.state;
    active_turn = lane.active;
    queued_turns = lane.queue;
  }
]

unfoldable pub get_turn_state : String → TurnLock → TurnState
get_turn_state thread_id s = elim (get thread_id s.lanes) [ none ↦ idle | some lane ↦ lane.state ]

abbrev pub user_of : Option Turn → Option String
user_of none = none
user_of (some t) = some t.user_id

unfoldable pub get_active_user_id : String → TurnLock → Option String
get_active_user_id thread_id s = elim (get thread_id s.lanes) [
  | none ↦ none
  | some lane ↦ user_of lane.active
]

-- `clearThread`: every waiter is answered `false`, and the lane is forgotten.
unfoldable pub clear_thread : String → TurnLock → TurnLock
clear_thread thread_id s = elim (get thread_id s.lanes) [
  | none ↦ s
  | some lane ↦ record s {
    lanes = delete thread_id s.lanes;
    log = s.log ++ map (λ w. answer w.1 false) lane.waiters;
  }
]

unfoldable pub active_thread_ids : TurnLock → List String
active_thread_ids s = keys s.lanes
