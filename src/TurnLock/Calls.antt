-- ===== src/TurnLock/Calls.antt =====
-- Sequences of calls of an `AgentTurnLock`, and what holds of the lock between two of them.
use asterim.Prelude.{ℕ, String, Option, List, [], ◌∷◌}
use asterim.TurnLock.Types.{Turn, ThreadContext, Outcome, TurnLock, PendingApprovalInfo}
use asterim.TurnLock.Methods.{
  enqueue, acquire_turn, release_turn, cancel_turn, mark_awaiting_approval, resume_from_approval,
  clear_thread,
}

-- A call of a public method that may change the lock, with its arguments.
pub data Call : Type 0 where
  submit : Turn → ThreadContext → Call
  acquire : String → String → Option ThreadContext → Call
  release : String → String → Outcome → Call
  cancel : String → String → Call
  park : String → String → Option PendingApprovalInfo → Call
  resume : String → String → Call
  clear : String → Call

unfoldable pub step : ℕ → Call → TurnLock → TurnLock
unfolding enqueue acquire_turn release_turn cancel_turn mark_awaiting_approval resume_from_approval
    clear_thread
step now (submit item context) s = (enqueue now item context s).0
step now (acquire thread_id turn_id context) s = (acquire_turn now thread_id turn_id context s).0
step now (release thread_id turn_id outcome) s = release_turn now thread_id turn_id outcome s
step now (cancel thread_id turn_id) s = (cancel_turn now thread_id turn_id s).0
step now (park thread_id turn_id info) s = (mark_awaiting_approval thread_id turn_id info s).0
step now (resume thread_id turn_id) s = (resume_from_approval thread_id turn_id s).0
step now (clear thread_id) s = clear_thread thread_id s

-- Calls one after the other, each with the time at which it is made.
unfoldable pub run : List (ℕ × Call) → TurnLock → TurnLock
run [] s = s
run ((now, c) ∷ calls) s = run calls (step now c s)
