-- ===== src/TurnLock/Order.antt =====
-- The order in which a thread's turns are served, as an abstract queue of turn ids, and what each
-- call of `AgentTurnLock` does to it.
use asterim.Prelude.{
  ℕ, ◌+◌, subst, String, Bool, Option, none, some, List, [], ◌∷◌, ◌++◌, ◌≡◌, refl, sym, ap, ◌∙◌,
  inl, inr, not, ◌||◌, get, put, get-put, str_eq, str_eq_refl, str_eq-cases, if◌then◌else◌,
  Option-cases, ap-if, ◌&&◌, is_some, includes, map, map-append, append-nil,
}
use asterim.TurnLock.Types.{
  Turn, ThreadLane, ThreadContext, Effect, Outcome, TurnLock, idle, queued,
}
use asterim.TurnLock.Lane.{
  write, is_active, find_index, in_service, service_order, pump, pump_from, lane_of,
}
use asterim.TurnLock.Methods.{enqueue, await_turn, release_lane, cancel_lane}
use asterim.TurnLock.Calls.{Call, submit, acquire, release, cancel, clear}

abbrev pub ids : List Turn → List String
ids ts = map (λ t. t.id) ts

abbrev pub order : ThreadLane → List String
order lane = ids (service_order lane)

abbrev pub order_or_empty : Option ThreadLane → List String
order_or_empty none = []
order_or_empty (some lane) = order lane

abbrev pub queue_order : String → TurnLock → List String
queue_order thread_id s = order_or_empty (get thread_id s.lanes)

-- Granting the lock moves no turn.
pump_from-order :
    (now : ℕ) (active : Option Turn) (queue : List Turn) (lane : ThreadLane)
    → lane.active ≡ active
    → lane.queue ≡ queue
    → order (pump_from now active queue lane).0 ≡ ids (in_service active queue)
unfolding pump_from
pump_from-order now (some t) queue lane a q = rw (a, q)
pump_from-order now none [] lane a q = rw (a, q)
pump_from-order now none (next ∷ rest) lane a q = refl

pub pump-order : (now : ℕ) (lane : ThreadLane) → order (pump now lane).0 ≡ order lane
unfolding pump
pump-order now lane = pump_from-order now lane.active lane.queue lane refl refl

pub release_lane-order :
    (now : ℕ) (outcome : Outcome) (turn : Turn) (lane : ThreadLane)
    → order (release_lane now outcome turn lane).0 ≡ ids lane.queue
unfolding release_lane
release_lane-order now outcome turn lane =
    pump-order now (record lane { active = none; state = idle })

pub cancel_lane-order :
    (now : ℕ) (turn_id : String) (turn : Turn) (rest : List Turn) (lane : ThreadLane)
    → order (cancel_lane now turn_id turn rest lane).0 ≡ ids (in_service lane.active rest)
unfolding cancel_lane
cancel_lane-order now turn_id turn rest lane = pump-order now _

pub write-order :
    (k thread_id : String) (r : ThreadLane × List Effect) (s : TurnLock)
    → queue_order k (write thread_id r s)
      ≡ (if str_eq thread_id k then order r.0 else queue_order k s)
write-order k thread_id r s =
    ap order_or_empty (get-put k thread_id r.0 s.lanes)
    ∙ ap-if order_or_empty (str_eq thread_id k) (some r.0) (get k s.lanes)

pub in_service-append :
    (active : Option Turn) (xs ys : List Turn)
    → ids (in_service active (xs ++ ys)) ≡ ids (in_service active xs) ++ ids ys
in_service-append none xs ys = map-append _ xs ys
in_service-append (some t) xs ys = ap (λ l. t.id ∷ l) (map-append _ xs ys)

pub lane_of-order :
    (thread_id : String) (context : Option ThreadContext) (s : TurnLock)
    → order (lane_of thread_id context s) ≡ queue_order thread_id s
unfolding lane_of
lane_of-order thread_id context s = elim (Option-cases (get thread_id s.lanes)) [
  | inl e ↦ rw e refl
  | inr (lane, e) ↦ rw e refl
]

-- `acquireTurn` has not seen the turn: it neither runs, nor waits, nor is settled.
abbrev pub is_new : String → ThreadLane → List String → Bool
is_new turn_id lane settled = not (
    is_active lane.active turn_id
    || (is_some (find_index turn_id lane.queue) || includes turn_id settled))

-- The turn that a call puts at the back of the queue of thread `k`, if any.
abbrev pub joined : String → Call → TurnLock → List String
joined k (submit item context) s = if str_eq item.team_thread_id k then item.id ∷ [] else []
joined k (acquire thread_id turn_id context) s =
    if str_eq thread_id k && is_new turn_id (lane_of thread_id context s) s.settled
    then turn_id ∷ []
    else []
joined k _ s = []

-- What a call may do to the queue of thread `k`, from `o` to `o'`: put the turns `j` at the back,
-- serve the head, withdraw one turn, or forget the thread.
pub data QueueStep (k : String) (c : Call) (j o o' : List String) : Type 0 where
  grows : o' ≡ o ++ j → QueueStep k c j o o'
  served :
      (turn_id : String) (outcome : Outcome)
      → c ≡ release k turn_id outcome
      → o ≡ turn_id ∷ o'
      → QueueStep k c j o o'
  leaves :
      (front : List String) (turn_id : String) (back : List String)
      → c ≡ cancel k turn_id
      → o ≡ front ++ turn_id ∷ back
      → o' ≡ front ++ back
      → QueueStep k c j o o'
  forgotten : c ≡ clear k → o' ≡ [] → QueueStep k c j o o'

pub stays : {k : String} {c : Call} {o o' : List String} → o' ≡ o → QueueStep k c [] o o'
stays e = grows (e ∙ sym (append-nil _))

-- A call that writes one lane back, and keeps the order there, keeps every order.
pub write-order_same :
    (k thread_id : String) (r : ThreadLane × List Effect) (s : TurnLock)
    → order r.0 ≡ queue_order thread_id s
    → queue_order k (write thread_id r s) ≡ queue_order k s
write-order_same k thread_id r s e = elim (str_eq-cases thread_id k) [
  | inl same ↦
      write-order k thread_id r s
      ∙ subst (λ t. (if str_eq thread_id t then order r.0 else queue_order t s) ≡ queue_order t s)
          same (rw (str_eq_refl thread_id) e)
  | inr other ↦ write-order k thread_id r s ∙ rw other refl
]

-- A call that writes one lane back with turns added at the end adds them to that queue alone.
pub write-order_grown :
    (k thread_id : String) (r : ThreadLane × List Effect) (xs : List String) (s : TurnLock)
    → order r.0 ≡ queue_order thread_id s ++ xs
    → queue_order k (write thread_id r s)
      ≡ queue_order k s ++ (if str_eq thread_id k then xs else [])
write-order_grown k thread_id r xs s e = elim (str_eq-cases thread_id k) [
  | inl same ↦
      write-order k thread_id r s
      ∙ subst
          (λ t.
            (if str_eq thread_id t then order r.0 else queue_order t s)
            ≡ queue_order t s ++ (if str_eq thread_id t then xs else []))
          same (rw (str_eq_refl thread_id) e)
  | inr other ↦ write-order k thread_id r s ∙ rw other (sym (append-nil _))
]

pub enqueue-order :
    (k : String) (now : ℕ) (item : Turn) (context : ThreadContext) (s : TurnLock)
    → queue_order k (enqueue now item context s).0
      ≡ queue_order k s ++ (if str_eq item.team_thread_id k then item.id ∷ [] else [])
unfolding enqueue
enqueue-order k now item context s =
    let lane = lane_of item.team_thread_id (some context) s in
    let back = in_service-append lane.active lane.queue (record item { status = queued } ∷ []) in
    write-order_grown k item.team_thread_id
      (
        record lane {
          context = context;
          queue = lane.queue ++ record item { status = queued } ∷ [];
        },
        [],
      )
      (item.id ∷ []) s
      (back ∙ ap (λ l. l ++ item.id ∷ []) (lane_of-order item.team_thread_id (some context) s))

pub await_turn-order :
    (k : String) (now : ℕ) (thread_id turn_id : String) (s : TurnLock)
    → queue_order k (await_turn now thread_id turn_id s).0 ≡ queue_order k s
unfolding await_turn
await_turn-order k now thread_id turn_id s =
    let lane = lane_of thread_id none s in
    let waiting = record lane { waiters = put turn_id s.next_promise lane.waiters } in
    write-order_same k thread_id (pump now waiting) (record s { next_promise = s.next_promise + 1 })
      (pump-order now waiting ∙ lane_of-order thread_id none s)
