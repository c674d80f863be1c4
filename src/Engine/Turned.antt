-- ===== src/Engine/Turned.antt =====
-- What a turn of the loop gives.
use asterim.Prelude.{
  ℕ, ◌<◌, ◌≡◌, refl, sym, ap, ◌∙◌, subst, inl, inr, String, true, false, Option, none, some, List,
  [], ◌∷◌, str_eq_refl, str_eq-cases, Bool-cases, any, All, Map, get,
}
use mathlib.Core.Option
use asterim.Pipeline.Graph.{StepStatus, passed, skipped, cancelled, PipelineStep}
use asterim.Engine.Types.{
  Fleet, Reason, Event, World, Execution, stopped, upstream_did_not_pass, step_did_not_pass,
}
use asterim.Engine.Dispatch.{Outcomes, dispatch_with_retries}
use asterim.Engine.Loop.{
  is_open, settle_remaining, finish, record_outcomes, first_failed, After, over, on, stop,
  after_failed, after_batch, next_batch, settle_batch, turn_batch, turn_unless, turn,
}
use asterim.Engine.Changes.{step_is, Change-outside}
use asterim.Engine.Moves.{Started, Startable, MayStart, dispatch_with_retries-Started}
use asterim.Engine.Retries.{dispatch_with_retries-Ends}
use asterim.Engine.Batches.{
  Recorded, record_outcomes-Recorded, first_failed-none, Remaining, settle_remaining-Remaining,
  settle_remaining-closed,
}
use asterim.Engine.Shape.{EventFits, Shape, Change-Shape, IsOver, finish-IsOver}
use asterim.Engine.Ready.{Staged, IsNext, own_steps}
use asterim.Engine.Waiting.{
  is_pending, pending_count, pending_count-lt, AtTop, ready_waits, next_batch-IsNext, no_batch,
  next_batch-Startable,
}

-- What a turn of the loop gives: a run that is over, or the top of the loop with fewer steps pending.
abbrev pub Goes : List PipelineStep → Execution → After → Type 0
Goes steps x (over y) = IsOver steps y
Goes steps x (on y) =
    AtTop steps y × (pending_count y.statuses steps < pending_count x.statuses steps)

-- Settling what is left and finishing ends a run.
settled-IsOver :
    (steps : List PipelineStep) (at : ℕ) (status : StepStatus) (reason why : Reason) (x : Execution)
    → (status ≡ passed → ⊥)
    → is_open (some status) ≡ false
    → Shape steps x
    → IsOver steps (finish at (some why) (settle_remaining at steps status reason x))
settled-IsOver steps at status reason why x unpassed closes h =
    let y : Execution = settle_remaining at steps status reason x in
    let settled : Remaining steps status (EventFits steps x.log) x y =
      settle_remaining-Remaining steps (EventFits steps x.log) at steps status reason x unpassed
        (own_steps steps) in
    finish-IsOver steps at (some why) y (Change-Shape steps x y settled (λ k v o. o.0) (λ e f. f) h)
      (settle_remaining-closed at status reason closes steps x)

batch_own :
    (steps : List PipelineStep) (m : Map StepStatus) (batch : List PipelineStep) (k : String)
    → All (IsNext steps m) batch
    → any (step_is k) batch ≡ true
    → any (step_is k) steps ≡ true
batch_own steps m [] k h e = absurd (cc)
batch_own steps m (t ∷ ts) k ((own, found, ready), h) e = elim (str_eq-cases t.id k) [
  | inl here ↦ subst (λ j. any (step_is j) steps ≡ true) here own
  | inr other ↦ batch_own steps m ts k h (rw other at e)
]

module _ (w : World) (fleet : Option Fleet) (steps : List PipelineStep)
    (staged : Staged [] steps) where
  stop-IsOver :
      (why : String) (x : Execution) → Shape steps x → IsOver steps (stop w fleet steps why x)
  stop-IsOver why x h =
      settled-IsOver steps (w.now x.tick) cancelled (stopped why) (stopped why) x (λ e. absurd (cc))
        refl h

  -- The batch, of steps that are next, was dispatched and its outcomes were recorded.
  module _ (x y z : Execution) (t : PipelineStep) (ts : List PipelineStep) (top : AtTop steps x)
      (next : All (IsNext steps x.statuses) (t ∷ ts))
      (started : Started (t ∷ ts) (EventFits steps x.log) x y)
      (recorded : Recorded (t ∷ ts) (EventFits steps y.log) y z) where
    batch-Shape : Shape steps z
    batch-Shape =
        Change-Shape steps y z recorded (λ k v o. batch_own steps x.statuses (t ∷ ts) k next o.0)
          (λ e f. f)
          (Change-Shape steps x y started (λ k v o. batch_own steps x.statuses (t ∷ ts) k next o.0)
            (λ e f. f) top.shape)

    outside : (k : String) → any (step_is k) (t ∷ ts) ≡ false → get k z.statuses ≡ get k x.statuses
    outside k e =
        Change-outside k recorded (λ v o. absurd (let b = o.0 in cc))
        ∙ Change-outside k started (λ v o. absurd (let b = o.0 in cc))

    -- All of the batch passed.
    module _ (none_failed : first_failed z.statuses (t ∷ ts) ≡ none) where
      inside : (k : String) → any (step_is k) (t ∷ ts) ≡ true → get k z.statuses ≡ some passed
      inside k e = first_failed-none z.statuses (t ∷ ts) k none_failed e

      still_pending :
          (k : String) → is_pending (get k z.statuses) ≡ true → is_pending (get k x.statuses) ≡ true
      unfolding is_pending
      still_pending k e = elim (Bool-cases (any (step_is k) (t ∷ ts))) [
        | inl among ↦ absurd (let b : false ≡ true = rw (inside k among) at e in cc)
        | inr beside ↦ subst (λ o. is_pending o ≡ true) (outside k beside) e
      ]

      next_top : AtTop steps z
      next_top = record {
        shape = batch-Shape;
        waiting = λ k v e. elim (Bool-cases (any (step_is k) (t ∷ ts))) [
          | inl among ↦ inr (let p = inside k among in cc)
          | inr beside ↦ top.waiting k v (sym (outside k beside) ∙ e)
        ];
      }

      first_passed : get t.id z.statuses ≡ some passed
      first_passed = inside t.id (rw (str_eq_refl t.id) refl)

      fewer : pending_count z.statuses steps < pending_count x.statuses steps
      unfolding is_pending
      fewer =
          pending_count-lt x.statuses z.statuses steps t.id (λ j e. still_pending j e) next.0.0
            (rw (ready_waits steps x t top next.0) refl) (rw first_passed refl)

    after_failed-Goes :
        (o : Option String)
        → first_failed z.statuses (t ∷ ts) ≡ o
        → Goes steps x (after_failed w fleet steps o z)
    after_failed-Goes (some id) e =
        settled-IsOver steps (w.now z.tick) skipped upstream_did_not_pass (step_did_not_pass id) z
          (λ p. absurd (cc)) refl batch-Shape
    after_failed-Goes none e = (next_top e, fewer e)

    after_batch-Goes :
        (why : Option String) → Goes steps x (after_batch w fleet steps (t ∷ ts) why z)
    unfolding after_batch
    after_batch-Goes (some why) = stop-IsOver why z batch-Shape
    after_batch-Goes none = after_failed-Goes (first_failed z.statuses (t ∷ ts)) refl

  startable :
      (m : Map StepStatus) (batch ss : List PipelineStep) (Ev : Event → Type 0)
      → All (λ s. any (step_is s.id) batch ≡ true) ss
      → All (MayStart Ev) ss
      → Startable batch Ev ss
  startable m batch [] Ev own may = tt
  startable m batch (s ∷ ss) Ev (first, own) (start, may) =
      ((first, start), startable m batch ss Ev own may)

  -- What a turn gives, when its fuel is enough.
  abbrev pub Turned : Execution → Option After → Type 0
  Turned x r = (a : After) × (r ≡ some a) × Goes steps x a

  settle_batch-Turned :
      (x y : Execution) (t : PipelineStep) (ts : List PipelineStep) (os : Outcomes)
      → AtTop steps x
      → All (IsNext steps x.statuses) (t ∷ ts)
      → dispatch_with_retries w fleet steps (t ∷ ts) x ≡ some (y, os)
      → Goes steps x (settle_batch w fleet steps (t ∷ ts) (y, os))
  settle_batch-Turned x y t ts os top next e =
      let batch = t ∷ ts in
      let fits = EventFits steps x.log in
      let why = w.cancel_reason y.tick in
      let (started, answered) =
        dispatch_with_retries-Started w fleet steps batch fits x y os
          (startable x.statuses batch batch fits (own_steps batch)
            (next_batch-Startable w fleet steps staged x batch top.shape.logged next))
          e in
      let recorded : Recorded batch (EventFits steps y.log) y (record_outcomes w why os y) =
        record_outcomes-Recorded batch (EventFits steps y.log) w why os y (λ id v. tt)
          (subst (All (λ s. any (step_is s.id) batch ≡ true)) (sym answered) (own_steps batch)) in
      after_batch-Goes x y (record_outcomes w why os y) t ts top next started recorded why

  turn_batch-Turned :
      (x : Execution) (batch : List PipelineStep)
      → batch ≡ next_batch w fleet steps x
      → AtTop steps x
      → Turned x (turn_batch w fleet steps batch x)
  turn_batch-Turned x [] e top =
      let passed_all = no_batch w fleet steps staged x top (sym e) in
      (
        over (finish (w.now x.tick) none x),
        refl,
        finish-IsOver steps (w.now x.tick) none x top.shape (λ k own. rw (passed_all k own) refl),
      )
  turn_batch-Turned x (t ∷ ts) e top =
      let next =
        subst (All (IsNext steps x.statuses)) (sym e) (next_batch-IsNext w fleet steps staged x) in
      let (y, (os, found)) = dispatch_with_retries-Ends w fleet steps (t ∷ ts) x in
      (
        settle_batch w fleet steps (t ∷ ts) (y, os),
        ap (Option.map (settle_batch w fleet steps (t ∷ ts))) found,
        settle_batch-Turned x y t ts os top next found,
      )

  pub turn-Turned : (x : Execution) → AtTop steps x → Turned x (turn w fleet steps x)
  unfolding turn
  turn-Turned x top = unless (w.cancel_reason x.tick)
    where
      unless : (why : Option String) → Turned x (turn_unless w fleet steps why x)
      unless (some why) = (over (stop w fleet steps why x), refl, stop-IsOver why x top.shape)
      unless none = turn_batch-Turned x (next_batch w fleet steps x) refl top
