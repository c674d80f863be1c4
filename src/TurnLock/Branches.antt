-- ===== src/TurnLock/Branches.antt =====
-- The branches of the methods of `AgentTurnLock`, as one case lemma each.
use asterim.Prelude.{
  ℕ, String, Bool, true, false, Option, none, some, List, ◌≡◌, refl, inl, inr, get, str_eq,
  Bool-cases, Option-cases, str_eq_iff,
}
use asterim.TurnLock.Types.{
  Turn, ThreadLane, Effect, Outcome, TurnLock, PendingApprovalInfo, processing_turn, parked,
}
use asterim.TurnLock.Lane.{mark_settled, write}
use asterim.TurnLock.Methods.{
  release_turn, cancel_turn, mark_awaiting_approval, resume_from_approval, release_lane,
  cancel_lane, take_out, restate, parked_turn, resumed_turn, release_from, with_active,
}

-- A turn holds the lock of a thread.
pub record Holds (s : TurnLock) (thread_id turn_id : String) : Type 0 where
  pub lane : ThreadLane
  pub turn : Turn
  pub found : get thread_id s.lanes ≡ some lane
  pub active : lane.active ≡ some turn
  pub named : turn.id ≡ turn_id

pub data Released (now : ℕ) (thread_id turn_id : String) (outcome : Outcome) (s s' : TurnLock)
    : Type 0 where
  ignored : s' ≡ s → Released now thread_id turn_id outcome s s'
  handed_back :
      (h : Holds s thread_id turn_id)
      → s'
        ≡ write thread_id
            (release_lane now outcome h.turn h.lane)
            (record s { settled = mark_settled h.turn.id s.settled })
      → Released now thread_id turn_id outcome s s'

release_from-Released :
    (now : ℕ) (thread_id turn_id : String) (outcome : Outcome) (s : TurnLock) (lane : ThreadLane)
    (active : Option Turn)
    → get thread_id s.lanes ≡ some lane
    → lane.active ≡ active
    → Released now thread_id turn_id outcome s
        (release_from now thread_id turn_id outcome s lane active)
unfolding release_from
release_from-Released now thread_id turn_id outcome s lane none e a = ignored refl
release_from-Released now thread_id turn_id outcome s lane (some t) e a =
    elim (Bool-cases (str_eq t.id turn_id)) [
      | inl hit ↦ rw hit (
          handed_back
            (record {
              lane = lane;
              turn = t;
              found = e;
              active = a;
              named = (str_eq_iff _ _).0 hit;
            })
            refl)
      | inr miss ↦ rw miss (ignored refl)
    ]

pub release_turn-Released :
    (now : ℕ) (thread_id turn_id : String) (outcome : Outcome) (s : TurnLock)
    → Released now thread_id turn_id outcome s (release_turn now thread_id turn_id outcome s)
unfolding release_turn
release_turn-Released now thread_id turn_id outcome s =
    elim (Option-cases (get thread_id s.lanes)) [
      | inl e ↦ rw (e, release_turn) (ignored refl)
      | inr (lane, e) ↦
          rw (e, release_turn)
            (release_from-Released now thread_id turn_id outcome s lane lane.active e refl)
    ]

-- A turn waits in the queue of a thread: it is the first with its id, and `rest` is the others.
pub record Waits (s : TurnLock) (thread_id turn_id : String) : Type 0 where
  pub lane : ThreadLane
  pub turn : Turn
  pub rest : List Turn
  pub found : get thread_id s.lanes ≡ some lane
  pub taken : take_out turn_id lane.queue ≡ some (turn, rest)

pub data Cancelled (now : ℕ) (thread_id turn_id : String) (s : TurnLock) (r : TurnLock × Bool)
    : Type 0 where
  refused : r ≡ (s, false) → Cancelled now thread_id turn_id s r
  withdrawn :
      (w : Waits s thread_id turn_id)
      → r ≡ (
        write thread_id
            (cancel_lane now turn_id w.turn w.rest w.lane)
            (record s { settled = mark_settled w.turn.id s.settled }),
        true,
      )
      → Cancelled now thread_id turn_id s r

pub cancel_turn-Cancelled :
    (now : ℕ) (thread_id turn_id : String) (s : TurnLock)
    → Cancelled now thread_id turn_id s (cancel_turn now thread_id turn_id s)
unfolding cancel_turn
cancel_turn-Cancelled now thread_id turn_id s = elim (Option-cases (get thread_id s.lanes)) [
  | inl e ↦ rw (e, cancel_turn) (refused refl)
  | inr (lane, e) ↦ elim (Option-cases (take_out turn_id lane.queue)) [
    | inl f ↦ rw (e, cancel_turn) (rw f (refused refl))
    | inr ((turn, rest), f) ↦
        rw (e, cancel_turn)
          (rw f (
            withdrawn (record { lane = lane; turn = turn; rest = rest; found = e; taken = f })
              refl))
  ]
]

-- A change of the active turn's status: it happens to the turn that holds the lock, or to none.
pub data Restated (thread_id turn_id : String)
    (change : Turn → ThreadLane → ThreadLane × List Effect) (s : TurnLock) (r : TurnLock × Bool)
    : Type 0 where
  refused : r ≡ (s, false) → Restated thread_id turn_id change s r
  changed :
      (h : Holds s thread_id turn_id)
      → r ≡ (write thread_id (change h.turn h.lane) s, true)
      → Restated thread_id turn_id change s r

with_active-Restated :
    (thread_id turn_id : String) (change : Turn → ThreadLane → ThreadLane × List Effect)
    (s : TurnLock) (lane : ThreadLane) (active : Option Turn)
    → get thread_id s.lanes ≡ some lane
    → lane.active ≡ active
    → Restated thread_id turn_id change s (with_active thread_id turn_id change s lane active)
unfolding with_active
with_active-Restated thread_id turn_id change s lane none e a = Restated.refused refl
with_active-Restated thread_id turn_id change s lane (some t) e a =
    elim (Bool-cases (str_eq t.id turn_id)) [
      | inl hit ↦ rw hit (
          changed
            (record {
              lane = lane;
              turn = t;
              found = e;
              active = a;
              named = (str_eq_iff _ _).0 hit;
            })
            refl)
      | inr miss ↦ rw miss (Restated.refused refl)
    ]

pub mark_awaiting_approval-Restated :
    (thread_id turn_id : String) (info : Option PendingApprovalInfo) (s : TurnLock)
    → Restated thread_id turn_id
        (λ t. restate parked (parked_turn info t))
        s
        (mark_awaiting_approval thread_id turn_id info s)
unfolding mark_awaiting_approval
mark_awaiting_approval-Restated thread_id turn_id info s =
    elim (Option-cases (get thread_id s.lanes)) [
      | inl e ↦ rw (e, mark_awaiting_approval) (Restated.refused refl)
      | inr (lane, e) ↦
          rw (e, mark_awaiting_approval)
            (with_active-Restated thread_id turn_id _ s lane lane.active e refl)
    ]

pub resume_from_approval-Restated :
    (thread_id turn_id : String) (s : TurnLock)
    → Restated thread_id turn_id
        (λ t. restate processing_turn (resumed_turn t))
        s
        (resume_from_approval thread_id turn_id s)
unfolding resume_from_approval
resume_from_approval-Restated thread_id turn_id s = elim (Option-cases (get thread_id s.lanes)) [
  | inl e ↦ rw (e, resume_from_approval) (Restated.refused refl)
  | inr (lane, e) ↦
      rw (e, resume_from_approval)
        (with_active-Restated thread_id turn_id _ s lane lane.active e refl)
]
