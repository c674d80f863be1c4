-- ===== src/TurnLock/Settled.antt =====
-- A turn that was withdrawn, and the calls that come after.
use asterim.Prelude.{
  ℕ, suc, ◌+◌, ◌<◌, String, Bool, true, false, Option, none, some, List, [], ◌∷◌, ◌++◌, ◌||◌, ◌&&◌,
  ◌≡◌, refl, sym, ap, ◌∙◌, subst, arith, str_eq, str_eq_comm, str_eq-cases, length, includes,
  includes-append, is_some, Bool-cases, inl, inr,
}
use asterim.TurnLock.Types.{Turn, ThreadContext, TurnLock, resolved}
use asterim.TurnLock.Lane.{in_service, mark_settled, settled_memory, lane_of, is_active, find_index}
use asterim.TurnLock.Methods.{cancel_turn, acquire_turn}
use asterim.TurnLock.Branches.{Cancelled, withdrawn, cancel_turn-Cancelled}
use asterim.TurnLock.Calls.{Call, submit, acquire, release, cancel, park, resume, clear, step, run}
use asterim.TurnLock.Invariant.{take_out-IsCut}
use asterim.TurnLock.Order.{
  ids, queue_order, lane_of-order, is_new, joined, QueueStep, grows, served, leaves, forgotten,
}
use asterim.TurnLock.Fifo.{step-QueueStep}
use asterim.TurnLock.Memory.{Recent, Recent-includes, mark_settled-newest, step-Recent}

-- The call does not submit the turn `x` to thread `k`.
abbrev pub Spares : String → String → Call → Type 0
Spares k x (submit item context) = str_eq item.team_thread_id k && str_eq x item.id ≡ false
Spares k x _ = Unit

abbrev pub AllSpare : String → String → List (ℕ × Call) → Type 0
AllSpare k x [] = Unit
AllSpare k x ((now, c) ∷ calls) = Spares k x c × AllSpare k x calls

-- A settled turn does not join a queue but by a submission.
joined-excludes :
    (k x : String) (c : Call) (s : TurnLock)
    → Spares k x c
    → includes x s.settled ≡ true
    → includes x (joined k c s) ≡ false
joined-excludes k x (submit item context) s spared known =
    elim (Bool-cases (str_eq item.team_thread_id k)) [
      | inl e ↦ rw e (ground (arith, rw e at spared))
      | inr e ↦ rw e refl
    ]
joined-excludes k x (acquire thread_id turn_id context) s spared known =
    let lane = lane_of thread_id context s in
    elim (Bool-cases (str_eq thread_id k && is_new turn_id lane s.settled)) [
      | inr e ↦ rw e refl
      | inl e ↦ rw e (elim (str_eq-cases x turn_id) [
        | inr other ↦ rw other refl
        | inl same ↦
            let seen : includes turn_id s.settled ≡ true =
              subst (λ i. includes i s.settled ≡ true) same known in
            absurd (ground (arith, e, seen))
      ])
    ]
joined-excludes k x (release thread_id turn_id outcome) s spared known = refl
joined-excludes k x (cancel thread_id turn_id) s spared known = refl
joined-excludes k x (park thread_id turn_id info) s spared known = refl
joined-excludes k x (resume thread_id turn_id) s spared known = refl
joined-excludes k x (clear thread_id) s spared known = refl

QueueStep-excludes :
    {k : String} {c : Call} {j o o' : List String} (x : String)
    → QueueStep k c j o o'
    → includes x j ≡ false
    → includes x o ≡ false
    → includes x o' ≡ false
QueueStep-excludes {j} {o} x (grows e) new old =
    rw e (includes-append x o j ∙ ground (arith, new, old))
QueueStep-excludes {o'} x (served turn_id outcome c e) new old =
    let all : includes x (turn_id ∷ o') ≡ false = rw e at old in ground (arith, all)
QueueStep-excludes x (leaves front turn_id back c e e') new old =
    let all : includes x (front ++ turn_id ∷ back) ≡ false = rw e at old in
    rw e'
      (includes-append x front back ∙ ground (arith, all, includes-append x front (turn_id ∷ back)))
QueueStep-excludes x (forgotten c e) new old = rw e refl

-- While the memory of settled turns holds `x`, it neither joins the queue nor runs.
run-Recent :
    (k x : String) (calls : List (ℕ × Call)) (s : TurnLock) (n : ℕ)
    → AllSpare k x calls
    → n + length calls < settled_memory
    → Recent x n s.settled
    → includes x (queue_order k s) ≡ false
    → Recent x (n + length calls) (run calls s).settled
      × (includes x (queue_order k (run calls s)) ≡ false)
unfolding run
run-Recent k x [] s n spare room h absent =
    (subst (λ m. Recent x m s.settled) (omega arith) h, absent)
run-Recent k x ((now, c) ∷ calls) s n (spares, spare) room h absent =
    let known = Recent-includes x n s.settled h in
    subst
      (λ m.
        Recent x m (run calls (step now c s)).settled
        × (includes x (queue_order k (run calls (step now c s))) ≡ false))
      (omega arith)
      (run-Recent k x calls (step now c s) (suc n) spare (omega (arith, room))
        (step-Recent now c s x n (omega (arith, room)) h)
        (QueueStep-excludes x (step-QueueStep k now c s) (joined-excludes k x c s spares known)
          absent))

-- Whether the lane knows a turn, in terms of its order.
find_index-includes : (x : String) (q : List Turn) → is_some (find_index x q) ≡ includes x (ids q)
unfolding find_index
find_index-includes x [] = refl
find_index-includes x (t ∷ ts) = ground (arith, str_eq_comm t.id x, find_index-includes x ts)

in_service-includes :
    (x : String) (active : Option Turn) (q : List Turn)
    → includes x (ids (in_service active q)) ≡ (is_active active x || is_some (find_index x q))
in_service-includes x none q = sym (find_index-includes x q)
in_service-includes x (some t) q = rw (find_index-includes x q, str_eq_comm t.id x)

-- A settled turn that is not in the queue's order is refused.
acquire_turn_settled :
    (now : ℕ) (thread_id x : String) (context : Option ThreadContext) (s : TurnLock)
    → includes x (queue_order thread_id s) ≡ false
    → includes x s.settled ≡ true
    → (acquire_turn now thread_id x context s).1 ≡ resolved false
unfolding acquire_turn
acquire_turn_settled now thread_id x context s absent settled =
    let lane = lane_of thread_id context s in
    let known : (is_active lane.active x || is_some (find_index x lane.queue)) ≡ false =
      sym (in_service-includes x lane.active lane.queue)
      ∙ ap (includes x) (lane_of-order thread_id context s)
      ∙ absent in
    ground (arith, known, settled)

-- A turn that waits in a thread's queue, once, and whose id was not settled before, is withdrawn by a
-- `cancelTurn` that answers `true`. However the lock is called afterwards, over fewer than 2000 calls
-- in which the turn is not submitted to the thread again, it neither holds nor waits for the
-- thread's lock, and an `acquireTurn` for it is answered `false` at once.
pub cancel_turn-run :
    (now : ℕ) (thread_id x : String) (s : TurnLock) (calls : List (ℕ × Call)) (later : ℕ)
    (context : Option ThreadContext)
    → includes x s.settled ≡ false
    → (cancel_turn now thread_id x s).1 ≡ true
    → includes x (queue_order thread_id (cancel_turn now thread_id x s).0) ≡ false
    → AllSpare thread_id x calls
    → length calls < settled_memory
    → let s' = run calls (cancel_turn now thread_id x s).0 in
      (includes x (queue_order thread_id s') ≡ false)
      × ((acquire_turn later thread_id x context s').1 ≡ resolved false)
cancel_turn-run now thread_id x s calls later context new e absent spare room =
    let recent =
      first (cancel_turn now thread_id x s) (cancel_turn-Cancelled now thread_id x s) e in
    let s' = run calls (cancel_turn now thread_id x s).0 in
    let (known, gone) =
      run-Recent thread_id x calls (cancel_turn now thread_id x s).0 0 spare (omega (arith, room))
        recent absent in
    (
      gone,
      acquire_turn_settled later thread_id x context s' gone
          (Recent-includes x (0 + length calls) s'.settled known),
    )
  where
    marked : (y : String) → y ≡ x → Recent x 0 (mark_settled y s.settled)
    marked y named =
        subst (λ i. Recent x 0 (mark_settled i s.settled)) (sym named)
          (mark_settled-newest x s.settled new)

    first :
        (r : TurnLock × Bool) → Cancelled now thread_id x s r → r.1 ≡ true → Recent x 0 r.0.settled
    first r (Cancelled.refused q) h = absurd (cc)
    first r (withdrawn w q) h =
        let cut = take_out-IsCut x w.lane.queue w.taken in rw q (marked w.turn.id cut.named)
