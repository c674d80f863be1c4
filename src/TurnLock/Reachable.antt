-- ===== src/TurnLock/Reachable.antt =====
-- What holds of an `AgentTurnLock` between two calls, whatever the calls.
use asterim.Prelude.{
  ℕ, ◌+◌, String, Bool, Option, none, some, List, [], ◌∷◌, ◌++◌, ◌≡◌, refl, inl, inr, ◌≤◌, length,
  includes, arith, All, All-append, get, if◌then◌else◌, Bool-cases, Option-cases, AllValues,
  AllValues-put, AllValues-delete, AllValues-get, is_some, put,
}
use asterim.TurnLock.Types.{
  Turn, ThreadLane, ThreadContext, Effect, Outcome, queued, TurnLock, processing_turn, parked,
  PendingApprovalInfo, TurnState,
}
use asterim.TurnLock.Lane.{
  new_lock, lane_of, evict, mark_settled, settled_memory, write, is_active, find_index,
}
use asterim.TurnLock.Methods.{
  enqueue, acquire_turn, await_turn, unknown_turn, clear_thread, get_queue_state, get_turn_state,
  restate, parked_turn, resumed_turn,
}
use asterim.TurnLock.Invariant.{
  IsValid, new_lane-IsValid, pump-IsValid, release_lane-IsValid, cancel_lane-IsValid, take_out-All,
  state_of, IsRunning,
}
use asterim.TurnLock.Branches.{
  Released, ignored, handed_back, Cancelled, withdrawn, Restated, changed, release_turn-Released,
  cancel_turn-Cancelled, mark_awaiting_approval-Restated, resume_from_approval-Restated,
}
use asterim.TurnLock.Calls.{Call, submit, acquire, release, cancel, park, resume, clear, step, run}

pub record Inv (s : TurnLock) : Type 0 where
  pub valid : AllValues IsValid s.lanes
  pub bounded : length s.settled ≤ settled_memory

pub lane_of-IsValid :
    (thread_id : String) (context : Option ThreadContext) (s : TurnLock)
    → Inv s
    → IsValid (lane_of thread_id context s)
unfolding lane_of
lane_of-IsValid thread_id context s v = elim (Option-cases (get thread_id s.lanes)) [
  | inl e ↦ rw e (new_lane-IsValid context)
  | inr (lane, e) ↦ rw e (AllValues-get IsValid thread_id s.lanes v.valid e)
]

write-Inv :
    (thread_id : String) (r : ThreadLane × List Effect) (s : TurnLock)
    → IsValid r.0
    → Inv s
    → Inv (write thread_id r s)
write-Inv thread_id r s p v = record {
  valid = AllValues-put IsValid thread_id r.0 s.lanes p v.valid;
  bounded = v.bounded;
}

evict_bounded : (ids : List String) → length (evict ids) ≤ settled_memory
unfolding evict
evict_bounded [] = omega arith
evict_bounded (x ∷ ids) = ground (arith, evict_bounded ids)

settle-Inv :
    (turn_id : String) (s : TurnLock)
    → Inv s
    → Inv (record s { settled = mark_settled turn_id s.settled })
unfolding mark_settled
settle-Inv turn_id s v = record {
  valid = v.valid;
  bounded =
      evict_bounded (if includes turn_id s.settled then s.settled else s.settled ++ turn_id ∷ []);
}

enqueue-Inv :
    (now : ℕ) (item : Turn) (context : ThreadContext) (s : TurnLock)
    → Inv s
    → Inv (enqueue now item context s).0
unfolding enqueue
enqueue-Inv now item context s v =
    let old = lane_of-IsValid item.team_thread_id (some context) s v in
    write-Inv item.team_thread_id _ s
      (record {
        agrees = old.agrees;
        running = old.running;
        waiting = All-append (λ t. t.status ≡ queued) _ _ old.waiting (refl, tt);
      })
      v

await_turn-Inv :
    (now : ℕ) (thread_id turn_id : String) (s : TurnLock)
    → Inv s
    → Inv (await_turn now thread_id turn_id s).0
unfolding await_turn
await_turn-Inv now thread_id turn_id s v =
    let old = lane_of-IsValid thread_id none s v in
    write-Inv thread_id _ (record s { next_promise = s.next_promise + 1 })
      (pump-IsValid now _
        (record { agrees = old.agrees; running = old.running; waiting = old.waiting }))
      (record { valid = v.valid; bounded = v.bounded })

acquire_turn-Inv :
    (now : ℕ) (thread_id turn_id : String) (context : Option ThreadContext) (s : TurnLock)
    → Inv s
    → Inv (acquire_turn now thread_id turn_id context s).0
unfolding acquire_turn
acquire_turn-Inv now thread_id turn_id context s v =
    let lane = lane_of thread_id context s in
    let opened = record s { lanes = put thread_id lane s.lanes } in
    let opened_inv : Inv opened = record {
      valid =
          AllValues-put IsValid thread_id lane s.lanes (lane_of-IsValid thread_id context s v)
            v.valid;
      bounded = v.bounded;
    } in
    let new_inv =
      enqueue-Inv now (unknown_turn now thread_id turn_id) lane.context opened opened_inv in
    elim (Bool-cases (is_active lane.active turn_id)) [
      | inl e ↦ rw e opened_inv
      | inr e ↦ rw e (elim (Bool-cases (is_some (find_index turn_id lane.queue))) [
        | inl f ↦ rw f (await_turn-Inv now thread_id turn_id opened opened_inv)
        | inr f ↦ rw f (elim (Bool-cases (includes turn_id s.settled)) [
          | inl g ↦ rw g opened_inv
          | inr g ↦ rw g (await_turn-Inv now thread_id turn_id _ new_inv)
        ])
      ])
    ]

release_turn-Inv :
    (now : ℕ) (thread_id turn_id : String) (outcome : Outcome) (s s' : TurnLock)
    → Released now thread_id turn_id outcome s s'
    → Inv s
    → Inv s'
release_turn-Inv now thread_id turn_id outcome s s' (ignored e) v = rw e v
release_turn-Inv now thread_id turn_id outcome s s' (handed_back h e) v = rw e (
    write-Inv thread_id _ _
      (release_lane-IsValid now outcome h.turn h.lane
        (AllValues-get IsValid thread_id s.lanes v.valid h.found))
      (settle-Inv h.turn.id s v))

cancel_turn-Inv :
    (now : ℕ) (thread_id turn_id : String) (s : TurnLock) (r : TurnLock × Bool)
    → Cancelled now thread_id turn_id s r
    → Inv s
    → Inv r.0
cancel_turn-Inv now thread_id turn_id s r (Cancelled.refused e) v = rw e v
cancel_turn-Inv now thread_id turn_id s r (withdrawn w e) v =
    let lane_valid = AllValues-get IsValid thread_id s.lanes v.valid w.found in
    let left =
      take_out-All (λ t. t.status ≡ queued) turn_id w.lane.queue w.taken lane_valid.waiting in
    rw e (
      write-Inv thread_id _ _
        (cancel_lane-IsValid now turn_id w.turn w.rest w.lane left.1 lane_valid)
        (settle-Inv w.turn.id s v))

restate-Inv :
    (thread_id turn_id : String) (state : TurnState) (change : Turn → Turn) (s : TurnLock)
    (r : TurnLock × Bool)
    → ((t : Turn) → (state ≡ state_of (some (change t))) × IsRunning (some (change t)))
    → Restated thread_id turn_id (λ t. restate state (change t)) s r
    → Inv s
    → Inv r.0
restate-Inv thread_id turn_id state change s r keeps (Restated.refused e) v = rw e v
restate-Inv thread_id turn_id state change s r keeps (changed h e) v =
    let old = AllValues-get IsValid thread_id s.lanes v.valid h.found in
    rw e (
      write-Inv thread_id _ s
        (record { agrees = (keeps h.turn).0; running = (keeps h.turn).1; waiting = old.waiting }) v)

parked_turn-IsRunning :
    (info : Option PendingApprovalInfo) (t : Turn)
    → (parked ≡ state_of (some (parked_turn info t))) × IsRunning (some (parked_turn info t))
parked_turn-IsRunning none t = (refl, inr refl)
parked_turn-IsRunning (some p) t = (refl, inr refl)

clear_thread-Inv : (thread_id : String) (s : TurnLock) → Inv s → Inv (clear_thread thread_id s)
unfolding clear_thread
clear_thread-Inv thread_id s v = elim (Option-cases (get thread_id s.lanes)) [
  | inl e ↦ rw (e, clear_thread) v
  | inr (lane, e) ↦
      rw (e, clear_thread)
        (record { valid = AllValues-delete IsValid thread_id s.lanes v.valid; bounded = v.bounded })
]

pub new_lock-Inv : Inv new_lock
new_lock-Inv = record { valid = tt; bounded = omega arith }

-- Every call keeps every lane valid and the memory of settled turns bounded.
pub step-Inv : (now : ℕ) (c : Call) (s : TurnLock) → Inv s → Inv (step now c s)
unfolding step
step-Inv now (submit item context) s v = enqueue-Inv now item context s v
step-Inv now (acquire thread_id turn_id context) s v =
    acquire_turn-Inv now thread_id turn_id context s v
step-Inv now (release thread_id turn_id outcome) s v =
    release_turn-Inv now thread_id turn_id outcome s _
      (release_turn-Released now thread_id turn_id outcome s) v
step-Inv now (cancel thread_id turn_id) s v =
    cancel_turn-Inv now thread_id turn_id s _ (cancel_turn-Cancelled now thread_id turn_id s) v
step-Inv now (park thread_id turn_id info) s v =
    restate-Inv thread_id turn_id parked (parked_turn info) s _ (parked_turn-IsRunning info)
      (mark_awaiting_approval-Restated thread_id turn_id info s) v
step-Inv now (resume thread_id turn_id) s v =
    restate-Inv thread_id turn_id processing_turn resumed_turn s _ (λ t. (refl, inl refl))
      (resume_from_approval-Restated thread_id turn_id s) v
step-Inv now (clear thread_id) s v = clear_thread-Inv thread_id s v

run-Inv : (calls : List (ℕ × Call)) (s : TurnLock) → Inv s → Inv (run calls s)
unfolding run
run-Inv [] s v = v
run-Inv ((now, c) ∷ calls) s v = run-Inv calls (step now c s) (step-Inv now c s v)

-- Whatever calls a new lock gets, in whatever order, `getTurnState` says of each thread what the
-- turn that holds its lock says: `IDLE` exactly when there is none, `AWAITING_APPROVAL` when it
-- waits for a decision and `PROCESSING_TURN` otherwise. The turns that wait are all `QUEUED`, and
-- at most 2000 settled turn ids are remembered.
pub run-states_agree :
    (calls : List (ℕ × Call)) (thread_id : String)
    → let s = run calls new_lock in
      let q = get_queue_state thread_id s in
      (get_turn_state thread_id s ≡ state_of q.active_turn)
      × IsRunning q.active_turn
      × All (λ t. t.status ≡ queued) q.queued_turns
      × (length s.settled ≤ settled_memory)
unfolding get_queue_state get_turn_state
run-states_agree calls thread_id =
    let v = run-Inv calls new_lock new_lock-Inv in
    elim (Option-cases (get thread_id (run calls new_lock).lanes)) [
      | inl e ↦ rw (e, get_turn_state, get_queue_state) (refl, tt, tt, v.bounded)
      | inr (lane, e) ↦
          let w = AllValues-get IsValid thread_id _ v.valid e in
          rw (e, get_turn_state, get_queue_state) (w.agrees, w.running, w.waiting, v.bounded)
    ]
