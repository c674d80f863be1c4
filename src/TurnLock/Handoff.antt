-- ===== src/TurnLock/Handoff.antt =====
-- Progress: a release hands the lock to the next turn and answers its promise, so each turn that
-- waits is served once those ahead of it have been released.
use mathlib.Core.List.{head-eq_of_cons-eq, tail-eq_of_cons-eq}
use asterim.Prelude.{
  ℕ, delete, subst, String, true, none, some, List, [], ◌∷◌, ◌++◌, ◌≡◌, refl, sym, ap, ◌∙◌, arith,
  get, get-put_self, str_eq, str_eq_refl,
}
use asterim.TurnLock.Types.{
  Turn, ThreadLane, Effect, Outcome, TurnLock, idle, turn_started, turn_completed, processing_turn,
}
use asterim.TurnLock.Lane.{emit, write, granted_turn, answer_waiter, mark_settled, pump_from}
use asterim.TurnLock.Methods.{release_turn, release_lane, finished_turn, release_from}
use asterim.TurnLock.Branches.{Holds}
use asterim.TurnLock.Order.{ids, order_or_empty, queue_order}
use asterim.TurnLock.Fifo.{Holds-order}

-- A release by the turn that holds the lock is not ignored.
pub release_turn_held :
    (now : ℕ) (thread_id turn_id : String) (outcome : Outcome) (s : TurnLock)
    (h : Holds s thread_id turn_id)
    → release_turn now thread_id turn_id outcome s
      ≡ write thread_id
          (release_lane now outcome h.turn h.lane)
          (record s { settled = mark_settled h.turn.id s.settled })
unfolding release_turn
release_turn_held now thread_id turn_id outcome s h =
    rw (h.found, release_turn)
      (ap (λ a. release_from now thread_id turn_id outcome s h.lane a) h.active
        ∙ rw (subst (λ x. str_eq h.turn.id x ≡ true) h.named (str_eq_refl h.turn.id)) refl)

-- The lane of a thread while its lock is free, and once its next turn has been granted it.
abbrev pub freed_lane : ThreadLane → ThreadLane
freed_lane lane = record lane { active = none; state = idle }

abbrev pub next_lane : ℕ → Turn → List Turn → ThreadLane → ThreadLane
next_lane now next rest lane = record lane {
  active = some (granted_turn now next);
  queue = rest;
  state = processing_turn;
  waiters = delete next.id lane.waiters;
}

-- What is announced and answered when the next turn is granted the lock.
abbrev pub next_effects : ℕ → Turn → List Turn → ThreadLane → List Effect
next_effects now next rest lane =
    emit turn_started
      (record lane { active = some (granted_turn now next); queue = rest; state = processing_turn })
      (granted_turn now next)
    ∷ answer_waiter (get next.id lane.waiters) true

release_lane-next :
    (now : ℕ) (outcome : Outcome) (turn : Turn) (lane : ThreadLane) (next : Turn) (rest : List Turn)
    → lane.queue ≡ next ∷ rest
    → release_lane now outcome turn lane ≡ (
      next_lane now next rest lane,
      emit turn_completed (freed_lane lane) (finished_turn now outcome turn)
          ∷ next_effects now next rest lane,
    )
unfolding release_lane
release_lane-next now outcome turn lane next rest q =
    ap
      (λ ql.
        let after = pump_from now none ql (freed_lane lane) in
        (after.0, emit turn_completed (freed_lane lane) (finished_turn now outcome turn) ∷ after.1))
      q

-- When the turn that holds a thread's lock is released, with any outcome, the first turn that waits
-- gets the lock in the same call: the event of the end comes first, then the event of the start,
-- then the answer `true` to the promise of that turn, if it has asked.
pub release_turn-next :
    (now : ℕ) (thread_id turn_id : String) (outcome : Outcome) (s : TurnLock)
    (h : Holds s thread_id turn_id) (next : Turn) (rest : List Turn)
    → h.lane.queue ≡ next ∷ rest
    → let s' = release_turn now thread_id turn_id outcome s in
      (get thread_id s'.lanes ≡ some (next_lane now next rest h.lane))
      × (s'.log
          ≡ s.log
            ++ (emit turn_completed (freed_lane h.lane) (finished_turn now outcome h.turn)
                ∷ next_effects now next rest h.lane))
release_turn-next now thread_id turn_id outcome s h next rest q =
    let lane = release_lane-next now outcome h.turn h.lane next rest q in
    let held = release_turn_held now thread_id turn_id outcome s h in
    (
      ap (λ t. get thread_id t.lanes) held
          ∙ get-put_self thread_id (release_lane now outcome h.turn h.lane).0 s.lanes
          ∙ ap (λ r. some r.0) lane,
      ap (λ t. t.log) held ∙ ap (λ r. s.log ++ r.1) lane,
    )

-- The first turn of a queue, found by its id.
first_of_ids :
    (x : String) (later : List String) (q : List Turn)
    → ids q ≡ x ∷ later
    → (next : Turn) × (rest : List Turn) × (q ≡ next ∷ rest) × (next.id ≡ x) × (ids rest ≡ later)
first_of_ids x later [] e = absurd (cc)
first_of_ids x later (t ∷ ts) e = (t, ts, refl, ground arith, ground arith)

-- The turn that waits first holds the lock after the release, and the queue is the same but for
-- the turn that was released.
release_turn-Holds :
    (now : ℕ) (thread_id turn_id : String) (outcome : Outcome) (s : TurnLock)
    (h : Holds s thread_id turn_id) (x : String) (later : List String)
    → ids h.lane.queue ≡ x ∷ later
    → let s' = release_turn now thread_id turn_id outcome s in
      Holds s' thread_id x × (queue_order thread_id s' ≡ x ∷ later)
release_turn-Holds now thread_id turn_id outcome s h x later e =
    let (next, rest, q, named, left) = first_of_ids x later h.lane.queue e in
    let found = (release_turn-next now thread_id turn_id outcome s h next rest q).0 in
    (
      record {
        lane = next_lane now next rest h.lane;
        turn = granted_turn now next;
        found = found;
        active = refl;
        named = named;
      },
      ap order_or_empty found ∙ ap (λ i. i ∷ ids rest) named ∙ ap (λ l. x ∷ l) left,
    )

-- Releases, each by the turn with the given id.
abbrev pub release_each : ℕ → String → Outcome → List String → TurnLock → TurnLock
release_each now thread_id outcome [] s = s
release_each now thread_id outcome (x ∷ xs) s =
    release_each now thread_id outcome xs (release_turn now thread_id x outcome s)

-- The id of the turn that holds the lock is the head of the queue's order.
holder_of_order :
    {s : TurnLock} {thread_id holder : String} (h : Holds s thread_id holder) (x : String)
    (later : List String)
    → queue_order thread_id s ≡ x ∷ later
    → (holder ≡ x) × (ids h.lane.queue ≡ later)
holder_of_order h x later e =
    let both = sym (Holds-order h) ∙ e in (head-eq_of_cons-eq both, tail-eq_of_cons-eq both)

-- A turn that waits is served: in a thread whose lock is held, once each of the turns before `x` in
-- the queue's order has been released in turn, `x` holds the lock.
pub release_each-Holds :
    (now : ℕ) (thread_id : String) (outcome : Outcome) (front : List String) (x : String)
    (back : List String) (s : TurnLock) (holder : String)
    → Holds s thread_id holder
    → queue_order thread_id s ≡ front ++ x ∷ back
    → Holds (release_each now thread_id outcome front s) thread_id x
release_each-Holds now thread_id outcome [] x back s holder h e =
    subst (Holds s thread_id) (holder_of_order h x back e).0 h
release_each-Holds now thread_id outcome (y ∷ []) x back s holder h e =
    let h' = subst (Holds s thread_id) (holder_of_order h y (x ∷ back) e).0 h in
    let left = (holder_of_order h' y (x ∷ back) e).1 in
    (release_turn-Holds now thread_id y outcome s h' x back left).0
release_each-Holds now thread_id outcome (y ∷ z ∷ front) x back s holder h e =
    let h' = subst (Holds s thread_id) (holder_of_order h y (z ∷ (front ++ x ∷ back)) e).0 h in
    let left = (holder_of_order h' y (z ∷ (front ++ x ∷ back)) e).1 in
    let (holds, order') = release_turn-Holds now thread_id y outcome s h' z _ left in
    release_each-Holds now thread_id outcome (z ∷ front) x back _ z holds order'
