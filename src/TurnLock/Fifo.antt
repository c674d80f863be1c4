-- ===== src/TurnLock/Fifo.antt =====
-- First in, first served: every call of `AgentTurnLock` is a step of the abstract queue, so the
-- turns of a thread are served in the order in which they joined it.
use mathlib.Core.List.{Sublistᴰ}
use mathlib.Core.List.Sublistᴰ
use asterim.Prelude.{
  ℕ, subst, String, Bool, true, false, Option, none, some, List, [], ◌∷◌, ◌++◌, ◌≡◌, refl, sym, ap,
  ◌∙◌, inl, inr, get, put, get-delete, str_eq, str_eq_refl, str_eq-cases, if◌then◌else◌, Bool-cases,
  Option-cases, ◌&&◌, is_some, includes, append-nil, append_assoc,
}
use asterim.TurnLock.Types.{
  Turn, ThreadLane, ThreadContext, Effect, Outcome, TurnLock, PendingApprovalInfo, TurnState,
  processing_turn, parked,
}
use asterim.TurnLock.Lane.{mark_settled, write, is_active, find_index, in_service, lane_of}
use asterim.TurnLock.Methods.{
  enqueue, acquire_turn, unknown_turn, clear_thread, release_lane, cancel_lane, restate,
  parked_turn, resumed_turn,
}
use asterim.TurnLock.Invariant.{take_out-IsCut}
use asterim.TurnLock.Branches.{
  Holds, Released, ignored, handed_back, Cancelled, withdrawn, Restated, changed,
  release_turn-Released, cancel_turn-Cancelled, mark_awaiting_approval-Restated,
  resume_from_approval-Restated,
}
use asterim.TurnLock.Calls.{Call, submit, acquire, release, cancel, park, resume, clear, step, run}
use asterim.TurnLock.Order.{
  ids, order, order_or_empty, queue_order, release_lane-order, cancel_lane-order, write-order,
  in_service-append, lane_of-order, joined, QueueStep, grows, served, leaves, forgotten, stays,
  write-order_same, enqueue-order, await_turn-order,
}

write-QueueStep :
    (k thread_id : String) (c : Call) (r : ThreadLane × List Effect) (s : TurnLock)
    → QueueStep thread_id c [] (queue_order thread_id s) (order r.0)
    → QueueStep k c [] (queue_order k s) (queue_order k (write thread_id r s))
write-QueueStep k thread_id c r s q = elim (str_eq-cases thread_id k) [
  | inl same ↦ rw (write-order k thread_id r s) (
      subst
        (λ t.
          QueueStep t c [] (queue_order t s)
            (if str_eq thread_id t then order r.0 else queue_order t s))
        same (rw (str_eq_refl thread_id) q))
  | inr other ↦ stays (write-order k thread_id r s ∙ rw other refl)
]

nothing_joined :
    (b : Bool) (x : String) (o : List String) → o ≡ o ++ (if b && false then x ∷ [] else [])
nothing_joined true x o = sym (append-nil o)
nothing_joined false x o = sym (append-nil o)

one_joined :
    (b : Bool) (x : String) (o : List String)
    → o ++ (if b then x ∷ [] else []) ≡ o ++ (if b && true then x ∷ [] else [])
one_joined true x o = refl
one_joined false x o = refl

acquire_turn-order :
    (k : String) (now : ℕ) (thread_id turn_id : String) (context : Option ThreadContext)
    (s : TurnLock)
    → queue_order k (acquire_turn now thread_id turn_id context s).0
      ≡ queue_order k s ++ joined k (acquire thread_id turn_id context) s
unfolding acquire_turn
acquire_turn-order k now thread_id turn_id context s =
    let lane = lane_of thread_id context s in
    let opened = record s { lanes = put thread_id lane s.lanes } in
    let kept : queue_order k opened ≡ queue_order k s =
      write-order_same k thread_id (lane, []) s (lane_of-order thread_id context s) in
    let new = enqueue now (unknown_turn now thread_id turn_id) lane.context opened in
    elim (Bool-cases (is_active lane.active turn_id)) [
      | inl e ↦ rw e (kept ∙ nothing_joined (str_eq thread_id k) turn_id _)
      | inr e ↦ rw e (elim (Bool-cases (is_some (find_index turn_id lane.queue))) [
        | inl f ↦ rw f (
            await_turn-order k now thread_id turn_id opened
            ∙ kept
            ∙ nothing_joined (str_eq thread_id k) turn_id _)
        | inr f ↦ rw f (elim (Bool-cases (includes turn_id s.settled)) [
          | inl g ↦ rw g (kept ∙ nothing_joined (str_eq thread_id k) turn_id _)
          | inr g ↦ rw g (
              await_turn-order k now thread_id turn_id new.0
              ∙ enqueue-order k now (unknown_turn now thread_id turn_id) lane.context opened
              ∙ ap (λ o. o ++ (if str_eq thread_id k then turn_id ∷ [] else [])) kept
              ∙ one_joined (str_eq thread_id k) turn_id _)
        ])
      ])
    ]

-- The turn that holds the lock is the head of the queue.
pub Holds-order :
    {s : TurnLock} {thread_id turn_id : String} (h : Holds s thread_id turn_id)
    → queue_order thread_id s ≡ turn_id ∷ ids h.lane.queue
Holds-order h =
    ap order_or_empty h.found
    ∙ ap (λ a. ids (in_service a h.lane.queue)) h.active
    ∙ ap (λ x. x ∷ ids h.lane.queue) h.named

Released-QueueStep :
    (k : String) (now : ℕ) (thread_id turn_id : String) (outcome : Outcome) (s s' : TurnLock)
    → Released now thread_id turn_id outcome s s'
    → QueueStep k (release thread_id turn_id outcome) [] (queue_order k s) (queue_order k s')
Released-QueueStep k now thread_id turn_id outcome s s' (ignored e) = rw e (stays refl)
Released-QueueStep k now thread_id turn_id outcome s s' (handed_back h e) = rw e (
    write-QueueStep k thread_id _ (release_lane now outcome h.turn h.lane)
      (record s { settled = mark_settled h.turn.id s.settled })
      (served turn_id outcome refl (
        Holds-order h
        ∙ ap (λ o. turn_id ∷ o) (sym (release_lane-order now outcome h.turn h.lane)))))

Cancelled-QueueStep :
    (k : String) (now : ℕ) (thread_id turn_id : String) (s : TurnLock) (r : TurnLock × Bool)
    → Cancelled now thread_id turn_id s r
    → QueueStep k (cancel thread_id turn_id) [] (queue_order k s) (queue_order k r.0)
Cancelled-QueueStep k now thread_id turn_id s r (Cancelled.refused e) = rw e (stays refl)
Cancelled-QueueStep k now thread_id turn_id s r (withdrawn w e) =
    let cut = take_out-IsCut turn_id w.lane.queue w.taken in
    rw e (
      write-QueueStep k thread_id _ (cancel_lane now turn_id w.turn w.rest w.lane)
        (record s { settled = mark_settled w.turn.id s.settled })
        (leaves (ids (in_service w.lane.active cut.front)) turn_id (ids cut.back) refl
          (ap order_or_empty w.found
            ∙ ap (λ q. ids (in_service w.lane.active q)) cut.whole
            ∙ in_service-append w.lane.active cut.front (w.turn ∷ cut.back)
            ∙ ap (λ x. ids (in_service w.lane.active cut.front) ++ x ∷ ids cut.back) cut.named)
          (cancel_lane-order now turn_id w.turn w.rest w.lane
            ∙ ap (λ q. ids (in_service w.lane.active q)) cut.left
            ∙ in_service-append w.lane.active cut.front cut.back)))

Restated-QueueStep :
    (k thread_id turn_id : String) (c : Call) (state : TurnState) (change : Turn → Turn)
    (s : TurnLock) (r : TurnLock × Bool)
    → ((t : Turn) → (change t).id ≡ t.id)
    → Restated thread_id turn_id (λ t. restate state (change t)) s r
    → QueueStep k c [] (queue_order k s) (queue_order k r.0)
Restated-QueueStep k thread_id turn_id c state change s r keeps (Restated.refused e) =
    rw e (stays refl)
Restated-QueueStep k thread_id turn_id c state change s r keeps (changed h e) = rw e (
    stays (
      write-order_same k thread_id (restate state (change h.turn) h.lane) s (
        sym (
          ap order_or_empty h.found
          ∙ ap (λ a. ids (in_service a h.lane.queue)) h.active
          ∙ ap (λ x. x ∷ ids h.lane.queue) (sym (keeps h.turn))))))

clear_thread-QueueStep :
    (k thread_id : String) (s : TurnLock)
    → QueueStep k (clear thread_id) [] (queue_order k s) (queue_order k (clear_thread thread_id s))
unfolding clear_thread
clear_thread-QueueStep k thread_id s = elim (Option-cases (get thread_id s.lanes)) [
  | inl e ↦ rw (e, clear_thread) (stays refl)
  | inr (lane, e) ↦
      rw (e, clear_thread)
        (elim (str_eq-cases thread_id k) [
          | inl same ↦
              forgotten (ap clear same) (rw (get-delete k thread_id s.lanes, same, str_eq_refl k))
          | inr other ↦ stays (rw (get-delete k thread_id s.lanes, other))
        ])
]

parked_turn-id : (info : Option PendingApprovalInfo) (t : Turn) → (parked_turn info t).id ≡ t.id
parked_turn-id none t = refl
parked_turn-id (some p) t = refl

-- Every call is one step of the queue of each thread `k`: a submission, or an `acquireTurn` of a turn
-- that the lock does not know, puts that turn at the back; a release may take away the head, and
-- only the turn that it names; a cancellation may take away one turn, and only the one that it
-- names; clearing the thread empties it. All else, and every call for another thread, leaves it as
-- it is.
pub step-QueueStep :
    (k : String) (now : ℕ) (c : Call) (s : TurnLock)
    → QueueStep k c (joined k c s) (queue_order k s) (queue_order k (step now c s))
unfolding step
step-QueueStep k now (submit item context) s = grows (enqueue-order k now item context s)
step-QueueStep k now (acquire thread_id turn_id context) s =
    grows (acquire_turn-order k now thread_id turn_id context s)
step-QueueStep k now (release thread_id turn_id outcome) s =
    Released-QueueStep k now thread_id turn_id outcome s _
      (release_turn-Released now thread_id turn_id outcome s)
step-QueueStep k now (cancel thread_id turn_id) s =
    Cancelled-QueueStep k now thread_id turn_id s _ (cancel_turn-Cancelled now thread_id turn_id s)
step-QueueStep k now (park thread_id turn_id info) s =
    Restated-QueueStep k thread_id turn_id _ parked (parked_turn info) s _ (parked_turn-id info)
      (mark_awaiting_approval-Restated thread_id turn_id info s)
step-QueueStep k now (resume thread_id turn_id) s =
    Restated-QueueStep k thread_id turn_id _ processing_turn resumed_turn s _ (λ t. refl)
      (resume_from_approval-Restated thread_id turn_id s)
step-QueueStep k now (clear thread_id) s = clear_thread-QueueStep k thread_id s

-- The turns that a run of calls puts into the queue of thread `k`, in order of arrival.
abbrev pub arrivals : String → List (ℕ × Call) → TurnLock → List String
arrivals k [] s = []
arrivals k ((now, c) ∷ calls) s = joined k c s ++ arrivals k calls (step now c s)

sublist_left : {l m : List String} (j : List String) → Sublistᴰ l m → Sublistᴰ l (m ++ j)
sublist_left {l} {m} j h =
    subst (λ t. Sublistᴰ t (m ++ j)) (append-nil l) (Sublistᴰ.append h (Sublistᴰ.nil-sublist j))

QueueStep-sublist :
    {k : String} {c : Call} {j o o' : List String} → QueueStep k c j o o' → Sublistᴰ o' (o ++ j)
QueueStep-sublist {j} {o} (grows e) = rw e (Sublistᴰ.refl (o ++ j))
QueueStep-sublist {j} {o'} (served turn_id outcome c e) =
    rw e (sublist_left j (Sublistᴰ.cons (Sublistᴰ.refl o')))
QueueStep-sublist {j} (leaves front turn_id back c e e') =
    rw (e, e')
      (sublist_left j (Sublistᴰ.append (Sublistᴰ.refl front) (Sublistᴰ.cons (Sublistᴰ.refl back))))
QueueStep-sublist {j} {o} (forgotten c e) = rw e (Sublistᴰ.nil-sublist (o ++ j))

-- Whatever calls are made, the turns that hold or wait for the lock of a thread stand in the order
-- in which they joined its queue: turns leave the queue, and none overtakes another.
pub run-fifo :
    (k : String) (calls : List (ℕ × Call)) (s : TurnLock)
    → Sublistᴰ (queue_order k (run calls s)) (queue_order k s ++ arrivals k calls s)
unfolding run
run-fifo k [] s = sublist_left [] (Sublistᴰ.refl (queue_order k s))
run-fifo k ((now, c) ∷ calls) s =
    let s' = step now c s in
    let later = arrivals k calls s' in
    subst (λ t. Sublistᴰ (queue_order k (run calls s')) t)
      (append_assoc (queue_order k s) (joined k c s) later)
      (Sublistᴰ.trans (run-fifo k calls s')
        (Sublistᴰ.append (QueueStep-sublist (step-QueueStep k now c s)) (Sublistᴰ.refl later)))
