-- ===== src/TurnLock/Memory.antt =====
-- The memory of settled turns, over the calls of a lock.
use asterim.Prelude.{
  ℕ, suc, ◌+◌, ◌≤◌, ◌<◌, String, Bool, true, false, Option, List, [], ◌∷◌, ◌++◌, ◌≡◌, refl, sym, ap,
  ◌∙◌, subst, arith, ltb, str_eq_refl, length, length-append, append_assoc, includes, is_some,
  Bool-cases, Option-cases, inl, inr, get,
}
use asterim.TurnLock.Types.{Turn, ThreadContext, ThreadLane, Effect, Outcome, TurnLock}
use asterim.TurnLock.Lane.{evict, mark_settled, settled_memory, lane_of, is_active, find_index}
use asterim.TurnLock.Methods.{enqueue, await_turn, acquire_turn, clear_thread}
use asterim.TurnLock.Branches.{
  Released, ignored, handed_back, Cancelled, withdrawn, Restated, changed, release_turn-Released,
  cancel_turn-Cancelled, mark_awaiting_approval-Restated, resume_from_approval-Restated,
}
use asterim.TurnLock.Calls.{Call, submit, acquire, release, cancel, park, resume, clear, step}

-- The ids settled after `x` are at most `n`.
abbrev pub Recent : String → ℕ → List String → Type 0
Recent x n settled =
    (older : List String) × (newer : List String) × (settled ≡ older ++ x ∷ newer)
    × (length newer ≤ n)

includes-middle : (x : String) (xs ys : List String) → includes x (xs ++ x ∷ ys) ≡ true
includes-middle x [] ys = rw (str_eq_refl x) refl
includes-middle x (y ∷ xs) ys = ground (arith, includes-middle x xs ys)

pub Recent-includes :
    (x : String) (n : ℕ) (settled : List String) → Recent x n settled → includes x settled ≡ true
Recent-includes x n settled (older, newer, e, short) =
    ap (includes x) e ∙ includes-middle x older newer

-- Only older ids are evicted while there is room for `x` and the newer ones.
evict_older :
    (x : String) (older newer : List String)
    → length newer < settled_memory
    → (left : List String) × (evict (older ++ x ∷ newer) ≡ left ++ x ∷ newer)
unfolding evict
evict_older x [] newer h =
    let room : ltb settled_memory (suc (length newer)) ≡ false = ground arith in ([], rw room refl)
evict_older x (y ∷ older) newer h =
    elim (Bool-cases (ltb settled_memory (suc (length (older ++ x ∷ newer))))) [
      | inl full ↦ let (left, e) = evict_older x older newer h in (left, rw full e)
      | inr room ↦ (y ∷ older, rw room refl)
    ]

mark_settled-Recent :
    (x y : String) (n : ℕ) (settled : List String)
    → suc n < settled_memory
    → Recent x n settled
    → Recent x (suc n) (mark_settled y settled)
unfolding mark_settled
mark_settled-Recent x y n settled room (older, newer, e, short) =
    elim (Bool-cases (includes y settled)) [
      | inl known ↦
          let (left, f) = evict_older x older newer (omega (arith, short, room)) in
          (left, newer, rw known (ap evict e ∙ f), omega (arith, short))
      | inr new ↦
          let longer = newer ++ y ∷ [] in
          let size : length longer ≡ length newer + 1 = length-append newer (y ∷ []) in
          let (left, f) = evict_older x older longer (omega (arith, short, room, size)) in
          (
            left,
            longer,
            rw new (
                ap (λ l. evict (l ++ y ∷ [])) e
                ∙ ap evict (append_assoc older (x ∷ newer) (y ∷ []))
                ∙ f),
            omega (arith, short, size),
          )
    ]

pub mark_settled-newest :
    (x : String) (settled : List String)
    → includes x settled ≡ false
    → Recent x 0 (mark_settled x settled)
unfolding mark_settled
mark_settled-newest x settled new =
    let (left, f) = evict_older x settled [] (omega arith) in (left, [], rw new f, omega arith)

-- A call settles at most one turn.
data Settling (s s' : TurnLock) : Type 0 where
  none_settled : s'.settled ≡ s.settled → Settling s s'
  one_settled : (y : String) → s'.settled ≡ mark_settled y s.settled → Settling s s'

acquire_turn-settled :
    (now : ℕ) (thread_id turn_id : String) (context : Option ThreadContext) (s : TurnLock)
    → (acquire_turn now thread_id turn_id context s).0.settled ≡ s.settled
unfolding acquire_turn await_turn enqueue
acquire_turn-settled now thread_id turn_id context s =
    let lane = lane_of thread_id context s in
    elim (Bool-cases (is_active lane.active turn_id)) [
      | inl e ↦ rw e refl
      | inr e ↦ rw e (elim (Bool-cases (is_some (find_index turn_id lane.queue))) [
        | inl f ↦ rw f refl
        | inr f ↦ rw f (elim (Bool-cases (includes turn_id s.settled)) [
          | inl g ↦ rw g refl
          | inr g ↦ rw g refl
        ])
      ])
    ]

Released-Settling :
    {now : ℕ} {thread_id turn_id : String} {outcome : Outcome} {s s' : TurnLock}
    → Released now thread_id turn_id outcome s s'
    → Settling s s'
Released-Settling (ignored e) = none_settled (ap (λ t. t.settled) e)
Released-Settling (handed_back h e) = one_settled h.turn.id (ap (λ t. t.settled) e)

Cancelled-Settling :
    {now : ℕ} {thread_id turn_id : String} {s : TurnLock} {r : TurnLock × Bool}
    → Cancelled now thread_id turn_id s r
    → Settling s r.0
Cancelled-Settling (Cancelled.refused e) = none_settled (ap (λ t. t.0.settled) e)
Cancelled-Settling (withdrawn w e) = one_settled w.turn.id (ap (λ t. t.0.settled) e)

Restated-Settling :
    {thread_id turn_id : String} {change : Turn → ThreadLane → ThreadLane × List Effect}
    {s : TurnLock} {r : TurnLock × Bool}
    → Restated thread_id turn_id change s r
    → Settling s r.0
Restated-Settling (Restated.refused e) = none_settled (ap (λ t. t.0.settled) e)
Restated-Settling (changed h e) = none_settled (ap (λ t. t.0.settled) e)

step-Settling : (now : ℕ) (c : Call) (s : TurnLock) → Settling s (step now c s)
unfolding step enqueue clear_thread
step-Settling now (submit item context) s = none_settled refl
step-Settling now (acquire thread_id turn_id context) s =
    none_settled (acquire_turn-settled now thread_id turn_id context s)
step-Settling now (release thread_id turn_id outcome) s =
    Released-Settling (release_turn-Released now thread_id turn_id outcome s)
step-Settling now (cancel thread_id turn_id) s =
    Cancelled-Settling (cancel_turn-Cancelled now thread_id turn_id s)
step-Settling now (park thread_id turn_id info) s =
    Restated-Settling (mark_awaiting_approval-Restated thread_id turn_id info s)
step-Settling now (resume thread_id turn_id) s =
    Restated-Settling (resume_from_approval-Restated thread_id turn_id s)
step-Settling now (clear thread_id) s = elim (Option-cases (get thread_id s.lanes)) [
  | inl e ↦ none_settled (rw (e, clear_thread) refl)
  | inr (lane, e) ↦ none_settled (rw (e, clear_thread) refl)
]

pub step-Recent :
    (now : ℕ) (c : Call) (s : TurnLock) (x : String) (n : ℕ)
    → suc n < settled_memory
    → Recent x n s.settled
    → Recent x (suc n) (step now c s).settled
step-Recent now c s x n room h = elim (step-Settling now c s) [
  | none_settled e ↦ let (older, newer, f, short) = h in (older, newer, e ∙ f, omega (arith, short))
  | one_settled y e ↦ subst (Recent x (suc n)) (sym e) (mark_settled-Recent x y n s.settled room h)
]
