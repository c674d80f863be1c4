-- ===== src/Engine/Ended.antt =====
-- Every run ends, and how.
use asterim.Prelude.{
  ℕ, zero, suc, ◌≤◌, ◌<◌, ◌≡◌, refl, sym, ◌∙◌, subst, arith, inl, inr, String, true, false, Option,
  none, some, List, [], ◌∷◌, if◌then◌else◌, str_eq, Bool-cases, length, any, All, Map, get, get-put,
  put-IsKeyed, IsKeyed,
}
use asterim.Pipeline.Graph.{StepStatus, pending, passed, PipelineStep, ids_of}
use asterim.Engine.Types.{Fleet, StepRunRow, RunRow, World, Execution}
use asterim.Engine.Loop.{After, over, on, loop, all_pending, execute}
use asterim.Engine.Changes.{step_is, RowAgrees, row_ids}
use asterim.Engine.Shape.{IsOver}
use asterim.Engine.Ready.{Staged}
use asterim.Engine.Waiting.{is_pending, pending_count, AtTop}
use asterim.Engine.Turned.{Goes, turn-Turned}

module _ (w : World) (fleet : Option Fleet) (steps : List PipelineStep)
    (staged : Staged [] steps) where
  abbrev Ended : Option Execution → Type 0
  Ended r = (y : Execution) × (r ≡ some y) × IsOver steps y

  -- The loop ends before more turns than steps are pending.
  loop-Ended :
      (fuel : ℕ) (x : Execution)
      → AtTop steps x
      → pending_count x.statuses steps < fuel
      → Ended (loop w fleet steps fuel x)
  unfolding loop
  loop-Ended zero x top few = absurd (omega arith)
  loop-Ended (suc fuel) x top few =
      let (a, turned, goes) = turn-Turned w fleet steps staged x top in
      subst
        (λ r. Ended (elim r [
          | none ↦ none
          | some (over y) ↦ some y
          | some (on y) ↦ loop w fleet steps fuel y
        ]))
        (sym turned)
        (from (λ y next fewer. loop-Ended fuel y next (omega (arith, fewer, few))) a goes)
    where
      from :
          ((y : Execution)
            → AtTop steps y
            → pending_count y.statuses steps < pending_count x.statuses steps
            → Ended (loop w fleet steps fuel y))
          → (a : After) → Goes steps x a
          → Ended (elim a [ over y ↦ some y | on y ↦ loop w fleet steps fuel y ])
      from again (over y) done = (y, refl, done)
      from again (on y) (next, fewer) = again y next fewer

pending_count-length :
    (m : Map StepStatus) (ss : List PipelineStep) → pending_count m ss ≤ length ss
unfolding pending_count
pending_count-length m [] = omega arith
pending_count-length m (s ∷ ss) = elim (Bool-cases (is_pending (get s.id m))) [
  | inl e ↦ rw e (omega (arith, pending_count-length m ss))
  | inr e ↦ rw e (omega (arith, pending_count-length m ss))
]

module _ (w : World) (fleet : Option Fleet) (steps : List PipelineStep) where
  abbrev Starts : List PipelineStep → Type 0
  Starts ss =
      IsKeyed (all_pending w fleet steps ss)
      × ((k : String)
          → get k (all_pending w fleet steps ss)
            ≡ (if any (step_is k) ss then some pending else none))

  all_pending-Starts : (ss : List PipelineStep) → Starts ss
  unfolding get
  all_pending-Starts [] = (tt, λ k. refl)
  all_pending-Starts (s ∷ ss) =
      let (keyed, reads) = all_pending-Starts ss in
      let m = all_pending w fleet steps ss in
      (
        put-IsKeyed s.id pending m keyed,
        λ k.
            get-put k s.id pending m
            ∙ (elim (Bool-cases (str_eq s.id k)) [ inl e ↦ rw e refl | inr e ↦ rw e (reads k) ]),
      )

  -- What `execute` starts its loop with.
  abbrev pub first_execution : ℕ → List StepRunRow → RunRow → Execution
  first_execution tick rows run = record {
    tick = tick;
    statuses = all_pending w fleet steps steps;
    results = [];
    worktrees = [];
    attempts = [];
    rows = rows;
    run = run;
    log = [];
  }

  abbrev pub Fresh : List StepRunRow → Type 0
  Fresh rows = All (λ r. (any (step_is r.step_id) steps ≡ true) × (r.status ≡ pending)) rows

  pub first_execution-AtTop :
      (tick : ℕ) (rows : List StepRunRow) (run : RunRow)
      → row_ids rows ≡ ids_of steps
      → Fresh rows
      → AtTop steps (first_execution tick rows run)
  first_execution-AtTop tick rows run own_rows fresh =
      let (keyed, reads) = all_pending-Starts steps in
      record {
        shape = record {
          keyed = keyed;
          only = λ k e. elim (Bool-cases (any (step_is k) steps)) [
            | inl own ↦ own
            | inr other ↦ absurd (let b : false ≡ true = rw (reads k, other) at e in cc)
          ];
          every = λ k e. rw (reads k, e) refl;
          rows_of = own_rows;
          agree = agreed rows fresh;
          logged = λ k e. elim (Bool-cases (any (step_is k) steps)) [
            | inl own ↦ absurd (let b : some pending ≡ some passed = rw (reads k, own) at e in cc)
            | inr other ↦ absurd (let b : none ≡ some passed = rw (reads k, other) at e in cc)
          ];
          sound = tt;
        };
        waiting = λ k v e. elim (Bool-cases (any (step_is k) steps)) [
          | inl own ↦ inl (let b : some pending ≡ some v = rw (reads k, own) at e in cc)
          | inr other ↦ absurd (let b : none ≡ some v = rw (reads k, other) at e in cc)
        ];
      }
    where
      agreed :
          (rs : List StepRunRow) → Fresh rs → All (RowAgrees (all_pending w fleet steps steps)) rs
      agreed [] h = tt
      agreed (r ∷ rs) ((own, waits), h) =
          (rw ((all_pending-Starts steps).1 r.step_id, own, waits) refl, agreed rs h)

  -- `execute` ends, and what it ends with, for rows that are pending as the memory is.
  pub execute-IsOver :
      (tick : ℕ) (rows : List StepRunRow) (run : RunRow)
      → Staged [] steps
      → row_ids rows ≡ ids_of steps
      → Fresh rows
      → (y : Execution) × (execute w fleet steps tick rows run ≡ some y) × IsOver steps y
  unfolding execute
  execute-IsOver tick rows run staged own_rows fresh =
      let x : Execution = first_execution tick rows run in
      loop-Ended w fleet steps staged (suc (length steps)) x
        (first_execution-AtTop tick rows run own_rows fresh)
        (omega (arith, pending_count-length x.statuses steps))
