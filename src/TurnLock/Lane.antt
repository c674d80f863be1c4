-- ===== src/TurnLock/Lane.antt =====
-- The private helpers of apps/server/src/services/ai/AgentTurnLock.ts: `lane`, `positionOf`, `emit`,
-- `markSettled` and `pump`.
use asterim.Prelude.{
  ℕ, suc, String, Bool, true, false, Option, none, some, List, [], ◌∷◌, ◌++◌, if◌then◌else◌, ltb,
  str_eq, get_or, length, includes, get, put, delete,
}
use asterim.TurnLock.Types.{
  Turn, ThreadContext, ThreadLane, EventType, Effect, TurnLock, processing, idle, processing_turn,
  turn_started, broadcast, answer,
}

abbrev pub new_lock : TurnLock
new_lock = record { lanes = []; settled = []; next_promise = 0; log = [] }

abbrev pub is_active : Option Turn → String → Bool
is_active none turn_id = false
is_active (some t) turn_id = str_eq t.id turn_id

-- `findIndex` by id, with `none` for -1.
unfoldable pub find_index : String → List Turn → Option ℕ
find_index turn_id [] = none
find_index turn_id (t ∷ ts) =
    if str_eq t.id turn_id
    then some 0
    else elim (find_index turn_id ts) [ none ↦ none | some i ↦ some (suc i) ]

-- `[...(lane.active ? [lane.active] : []), ...lane.queue]`.
abbrev pub in_service : Option Turn → List Turn → List Turn
in_service none queue = queue
in_service (some t) queue = t ∷ queue

abbrev pub service_order : ThreadLane → List Turn
service_order lane = in_service lane.active lane.queue

unfoldable pub position_of : ThreadLane → String → Option ℕ
unfolding find_index
position_of lane turn_id = find_index turn_id (service_order lane)

-- What `emit` hands to the broadcaster.
unfoldable pub emit : EventType → ThreadLane → Turn → Effect
emit event_type lane turn = broadcast event_type (record {
  team_thread_id = turn.team_thread_id;
  team_agent_id = lane.context.team_agent_id;
  team_id = lane.context.team_id;
  workspace_id = lane.context.team_id;
  project_id = lane.context.project_id;
  turn = turn;
  state = lane.state;
  queue_position = position_of lane turn.id;
  queue_length = length lane.queue;
  pending_approval = turn.pending_approval;
})

-- The lane of a thread, made if there is none, and the map that holds it.
abbrev pub default_context : ThreadContext
default_context = record { team_agent_id = ""; team_id = ""; project_id = none }

abbrev pub new_lane : Option ThreadContext → ThreadLane
new_lane context = record {
  context = get_or context default_context;
  active = none;
  queue = [];
  state = idle;
  waiters = [];
}

unfoldable pub lane_of : String → Option ThreadContext → TurnLock → ThreadLane
lane_of thread_id context s = get_or (get thread_id s.lanes) (new_lane context)

abbrev pub settled_memory : ℕ
settled_memory = 2000

-- The `while` loop of `markSettled`; it runs at most once for each entry.
unfoldable pub evict : List String → List String
evict [] = []
evict (oldest ∷ rest) =
    let smaller = evict rest in
    if ltb settled_memory (length (oldest ∷ rest)) then smaller else oldest ∷ rest

unfoldable pub mark_settled : String → List String → List String
unfolding evict
mark_settled turn_id settled =
    evict (if includes turn_id settled then settled else settled ++ turn_id ∷ [])

-- The grant that `pump` makes to the head of the queue, once the lock is free.
abbrev pub answer_waiter : Option ℕ → Bool → List Effect
answer_waiter none granted = []
answer_waiter (some p) granted = answer p granted ∷ []

abbrev pub granted_turn : ℕ → Turn → Turn
granted_turn now next = record next {
  status = processing;
  started_at = some (get_or next.started_at now);
}

unfoldable pub grant : ℕ → Turn → List Turn → ThreadLane → ThreadLane × List Effect
unfolding emit
grant now next rest lane =
    let turn = granted_turn now next in
    let held = record lane { active = some turn; queue = rest; state = processing_turn } in
    (
      record held { waiters = delete turn.id lane.waiters },
      emit turn_started held turn ∷ answer_waiter (get turn.id lane.waiters) true,
    )

-- `if (lane.active) return; const next = lane.queue.shift(); if (!next) return; …`.
unfoldable pub pump_from : ℕ → Option Turn → List Turn → ThreadLane → ThreadLane × List Effect
unfolding grant
pump_from now (some t) queue lane = (lane, [])
pump_from now none [] lane = (lane, [])
pump_from now none (next ∷ rest) lane = grant now next rest lane

unfoldable pub pump : ℕ → ThreadLane → ThreadLane × List Effect
unfolding pump_from
pump now lane = pump_from now lane.active lane.queue lane

-- The lock with a lane written back and effects logged.
abbrev pub write : String → ThreadLane × List Effect → TurnLock → TurnLock
write thread_id r s = record s { lanes = put thread_id r.0 s.lanes; log = s.log ++ r.1 }
