-- ===== src/TurnLock/Examples.antt =====
-- Runs of the turn lock on concrete calls.
use mathlib.Core.List.{Sublistᴰ}
use asterim.Prelude.{
  ℕ, ◌≤◌, get, put, delete, str_eq, String, false, none, some, List, [], ◌∷◌, includes, ◌++◌, ◌≡◌,
  refl, All, length, arith,
}
use asterim.TurnLock.Types.{
  Turn, ThreadLane, ThreadContext, TurnLock, Outcome, failed, queued, resolved, processing,
}
use asterim.TurnLock.Lane.{new_lock, lane_of, settled_memory}
use asterim.TurnLock.Methods.{
  cancel_turn, acquire_turn, unknown_turn, get_queue_state, get_turn_state,
}
use asterim.TurnLock.Calls.{Call, submit, acquire, release, cancel, step, run}
use asterim.TurnLock.Branches.{Holds}
use asterim.TurnLock.Invariant.{state_of, IsRunning}
use asterim.TurnLock.Reachable.{run-states_agree}
use asterim.TurnLock.Order.{queue_order, QueueStep}
use asterim.TurnLock.Fifo.{arrivals, step-QueueStep, run-fifo}
use asterim.TurnLock.Handoff.{release_each, release_each-Holds}
use asterim.TurnLock.Settled.{cancel_turn-run}

abbrev team : ThreadContext
team = record { team_agent_id = "agent"; team_id = "team"; project_id = none }

abbrev turn : String → Turn
turn x = unknown_turn 1 "t" x

abbrev failure : Outcome
failure = record { status = some failed; error_message = some "timed out" }

abbrev three_turns : List (ℕ × Call)
three_turns =
    (1, submit (turn "a") team)
    ∷ (2, submit (turn "b") team)
    ∷ (3, submit (turn "c") team)
    ∷ (4, acquire "t" "b" none)
    ∷ (5, acquire "t" "a" none)
    ∷ []

abbrev busy_lock : TurnLock
busy_lock = run three_turns new_lock

three_turns_order : queue_order "t" busy_lock ≡ "a" ∷ "b" ∷ "c" ∷ []
unfolding run step get put delete str_eq
three_turns_order = refl

abbrev busy_lane : ThreadLane
busy_lane = lane_of "t" none busy_lock

abbrev active_turn : Turn
active_turn = record (turn "a") { status = processing; started_at = some 4 }

busy-Holds : Holds busy_lock "t" "a"
unfolding run step get put delete str_eq lane_of
busy-Holds = record {
  lane = busy_lane;
  turn = active_turn;
  found = refl;
  active = refl;
  named = refl;
}

run-fifo_example :
    Sublistᴰ (queue_order "t" (run (three_turns ++ (6, release "t" "a" failure) ∷ []) new_lock)) (
      queue_order "t" new_lock
      ++ arrivals "t" (three_turns ++ (6, release "t" "a" failure) ∷ []) new_lock)
run-fifo_example = run-fifo "t" (three_turns ++ (6, release "t" "a" failure) ∷ []) new_lock

step-QueueStep_example :
    QueueStep "t"
      (cancel "t" "b")
      []
      (queue_order "t" busy_lock)
      (queue_order "t" (step 6 (cancel "t" "b") busy_lock))
step-QueueStep_example = step-QueueStep "t" 6 (cancel "t" "b") busy_lock

release_each-Holds_example : Holds (release_each 6 "t" failure ("a" ∷ "b" ∷ []) busy_lock) "t" "c"
release_each-Holds_example =
    release_each-Holds 6 "t" failure ("a" ∷ "b" ∷ []) "c" [] busy_lock "a" busy-Holds
      three_turns_order

run-states_agree_example :
    let s = run three_turns new_lock in
    let q = get_queue_state "t" s in
    (get_turn_state "t" s ≡ state_of q.active_turn)
    × IsRunning q.active_turn
    × All (λ t. t.status ≡ queued) q.queued_turns
    × (length s.settled ≤ settled_memory)
run-states_agree_example = run-states_agree three_turns "t"

-- Asked for twice, submitted elsewhere, and the turn that held the lock released.
abbrev aftermath : List (ℕ × Call)
aftermath =
    (7, acquire "t" "b" none)
    ∷ (8, submit (unknown_turn 8 "u" "b") team)
    ∷ (9, release "t" "a" failure)
    ∷ (10, acquire "t" "b" none)
    ∷ []

cancel_turn-run_example :
    let s' = run aftermath (cancel_turn 6 "t" "b" busy_lock).0 in
    (includes "b" (queue_order "t" s') ≡ false)
    × ((acquire_turn 11 "t" "b" none s').1 ≡ resolved false)
unfolding cancel_turn run step get put delete str_eq lane_of
cancel_turn-run_example =
    cancel_turn-run 6 "t" "b" busy_lock aftermath 11 none refl refl refl
      (tt, (refl, (tt, (tt, tt)))) (omega arith)
