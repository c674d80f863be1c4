-- ===== src/TurnLock/Invariant.antt =====
-- What holds of a lane of `AgentTurnLock` between two calls.
use asterim.Prelude.{
  ℕ, String, false, Option, none, some, List, [], ◌∷◌, ◌++◌, ◌≡◌, refl, ◌⊎◌, inl, inr, arith, All,
  All-append, str_eq, Bool-cases, Option-cases, str_eq_iff, All-middle,
}
use asterim.TurnLock.Types.{
  TurnState, Turn, ThreadLane, ThreadContext, Outcome, queued, processing, awaiting_approval, idle,
  processing_turn, parked,
}
use asterim.TurnLock.Lane.{new_lane, pump, pump_from}
use asterim.TurnLock.Methods.{release_lane, cancel_lane, take_out}

-- What `findIndex` and `splice` do: the first turn with the id leaves the queue.
pub record IsCut (turn_id : String) (ts : List Turn) (u : Turn) (rest : List Turn) : Type 0 where
  pub front : List Turn
  pub back : List Turn
  pub whole : ts ≡ front ++ u ∷ back
  pub left : rest ≡ front ++ back
  pub named : u.id ≡ turn_id
  pub first : All (λ t. str_eq t.id turn_id ≡ false) front

pub take_out-IsCut :
    (turn_id : String) (ts : List Turn) {u : Turn} {rest : List Turn}
    → take_out turn_id ts ≡ some (u, rest)
    → IsCut turn_id ts u rest
unfolding take_out
take_out-IsCut turn_id [] e = absurd (cc)
take_out-IsCut turn_id (t ∷ ts) {u} {rest} e = elim (Bool-cases (str_eq t.id turn_id)) [
  | inl hit ↦ record {
    front = [];
    back = ts;
    whole = ground arith;
    left = ground arith;
    named = ground (arith, str_eq_iff t.id turn_id);
    first = tt;
  }
  | inr miss ↦ elim (Option-cases (take_out turn_id ts)) [
    | inl none_left ↦ absurd (ground arith)
    | inr ((v, less), found) ↦
        let cut = take_out-IsCut turn_id ts found in
        record {
          front = t ∷ cut.front;
          back = cut.back;
          whole = ground arith;
          left = ground arith;
          named = ground arith;
          first = (miss, cut.first);
        }
  ]
]

-- The state of a thread, read off the turn that holds its lock.
abbrev pub state_of : Option Turn → TurnState
state_of none = idle
state_of (some t) = elim t.status [ awaiting_approval ↦ parked | _ ↦ processing_turn ]

abbrev pub IsRunning : Option Turn → Type 0
IsRunning none = Unit
IsRunning (some t) = (t.status ≡ processing) ⊎ (t.status ≡ awaiting_approval)

pub record IsValid (lane : ThreadLane) : Type 0 where
  pub agrees : lane.state ≡ state_of lane.active
  pub running : IsRunning lane.active
  pub waiting : All (λ t. t.status ≡ queued) lane.queue

pub new_lane-IsValid : (context : Option ThreadContext) → IsValid (new_lane context)
new_lane-IsValid context = record { agrees = refl; running = tt; waiting = tt }

pump_from-IsValid :
    (now : ℕ) (active : Option Turn) (queue : List Turn) (lane : ThreadLane)
    → lane.queue ≡ queue
    → IsValid lane
    → IsValid (pump_from now active queue lane).0
unfolding pump_from
pump_from-IsValid now (some t) queue lane e v = v
pump_from-IsValid now none [] lane e v = v
pump_from-IsValid now none (next ∷ rest) lane e v =
    let all : All (λ t. t.status ≡ queued) (next ∷ rest) = rw e at v.waiting in
    record { agrees = refl; running = inl refl; waiting = all.1 }

pub pump-IsValid : (now : ℕ) (lane : ThreadLane) → IsValid lane → IsValid (pump now lane).0
unfolding pump
pump-IsValid now lane v = pump_from-IsValid now lane.active lane.queue lane refl v

pub release_lane-IsValid :
    (now : ℕ) (outcome : Outcome) (turn : Turn) (lane : ThreadLane)
    → IsValid lane
    → IsValid (release_lane now outcome turn lane).0
unfolding release_lane
release_lane-IsValid now outcome turn lane v =
    pump-IsValid now (record lane { active = none; state = idle })
      (record { agrees = refl; running = tt; waiting = v.waiting })

-- What is left of the queue has what the whole queue has.
pub take_out-All {ℓ} :
    (P : Turn → Type ℓ) (turn_id : String) (ts : List Turn) {u : Turn} {rest : List Turn}
    → take_out turn_id ts ≡ some (u, rest)
    → All P ts
    → P u × All P rest
take_out-All P turn_id ts e h =
    let cut = take_out-IsCut turn_id ts e in
    let split : All P (cut.front ++ _ ∷ cut.back) = rw cut.whole at h in
    let (before, here, after) = All-middle P cut.front _ cut.back split in
    (here, rw cut.left (All-append P cut.front cut.back before after))

pub cancel_lane-IsValid :
    (now : ℕ) (turn_id : String) (turn : Turn) (rest : List Turn) (lane : ThreadLane)
    → All (λ t. t.status ≡ queued) rest
    → IsValid lane
    → IsValid (cancel_lane now turn_id turn rest lane).0
unfolding cancel_lane
cancel_lane-IsValid now turn_id turn rest lane all v =
    pump-IsValid now _ (record { agrees = v.agrees; running = v.running; waiting = all })
