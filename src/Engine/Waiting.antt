-- ===== src/Engine/Waiting.antt =====
-- Between two batches every step of a run waits or has passed.
use asterim.Prelude.{
  All-mono, ℕ, ◌+◌, ◌≤◌, ◌<◌, ◌≡◌, refl, sym, ap, ◌∙◌, subst, arith, ◌⊎◌, inl, inr, String, Bool,
  true, false, ◌&&◌, Option, none, some, List, [], ◌∷◌, str_eq-cases, Bool-cases, Option-cases, any,
  all, keep, All, Map, get, one,
}
use asterim.Pipeline.Graph.{
  StepStatus, pending, running, passed, failed, skipped, cancelled, PipelineStep, is_passed,
  not_started, is_ready, ready_pipeline_step_ids,
}
use asterim.Pipeline.Cycle.{depends_of}
use asterim.Engine.Types.{Fleet, World, Execution, pipeline_max_parallel_steps}
use asterim.Engine.Loop.{next_batch}
use asterim.Engine.Dispatch.{find_step}
use asterim.Engine.Changes.{step_is, says_passed, PassedLogged}
use asterim.Engine.Moves.{MayStart}
use asterim.Engine.Shape.{EventFits, Shape}
use asterim.Engine.Ready.{
  Staged, Staged-found, none_ready, found_steps, found_some, IsNext, keep-All, own_steps,
}

unfoldable pub is_pending : Option StepStatus → Bool
is_pending (some pending) = true
is_pending _ = false

-- How many steps are pending.
unfoldable pub pending_count : Map StepStatus → List PipelineStep → ℕ
pending_count m [] = 0
pending_count m (s ∷ ss) = one (is_pending (get s.id m)) + pending_count m ss

pending_count-le :
    (m n : Map StepStatus) (ss : List PipelineStep)
    → ((k : String) → is_pending (get k n) ≡ true → is_pending (get k m) ≡ true)
    → pending_count n ss ≤ pending_count m ss
unfolding pending_count
pending_count-le m n [] h = omega arith
pending_count-le m n (s ∷ ss) h = elim (Bool-cases (is_pending (get s.id n))) [
  | inl e ↦ rw (e, h s.id e) (omega (arith, pending_count-le m n ss h))
  | inr e ↦ rw e (omega (arith, pending_count-le m n ss h))
]

pub pending_count-lt :
    (m n : Map StepStatus) (ss : List PipelineStep) (k : String)
    → ((j : String) → is_pending (get j n) ≡ true → is_pending (get j m) ≡ true)
    → any (step_is k) ss ≡ true
    → is_pending (get k m) ≡ true
    → is_pending (get k n) ≡ false
    → pending_count n ss < pending_count m ss
unfolding pending_count
pending_count-lt m n [] k h own was now = absurd (cc)
pending_count-lt m n (s ∷ ss) k h own was now = elim (str_eq-cases s.id k) [
  | inl here ↦
      let was' : is_pending (get s.id m) ≡ true =
        subst (λ j. is_pending (get j m) ≡ true) (sym here) was in
      let now' : is_pending (get s.id n) ≡ false =
        subst (λ j. is_pending (get j n) ≡ false) (sym here) now in
      rw (was', now') (omega (arith, pending_count-le m n ss h))
  | inr other ↦
      let rest = pending_count-lt m n ss k h (rw other at own) was now in
      elim (Bool-cases (is_pending (get s.id n))) [
        | inl e ↦ rw (e, h s.id e) (omega (arith, rest))
        | inr e ↦ rw e (omega (arith, rest))
      ]
]

-- At the top of the loop every step is pending or has passed.
pub record AtTop (steps : List PipelineStep) (x : Execution) : Type 0 where
  pub shape : Shape steps x
  pub waiting :
      (k : String) (v : StepStatus) → get k x.statuses ≡ some v → (v ≡ pending) ⊎ (v ≡ passed)

-- Who is next at the top of the loop is pending.
pub ready_waits :
    (steps : List PipelineStep) (x : Execution) (t : PipelineStep)
    → AtTop steps x
    → IsNext steps x.statuses t
    → get t.id x.statuses ≡ some pending
ready_waits steps x t top (own, found, ready) = elim (Option-cases (get t.id x.statuses)) [
  | inl gone ↦ absurd (let b = top.shape.every t.id own in cc)
  | inr (v, there) ↦ elim (top.waiting t.id v there) [
    | inl e ↦ there ∙ ap some e
    | inr e ↦ absurd (let b : false ≡ true = rw (there, e) at ready in cc)
  ]
]

module _ (w : World) (fleet : Option Fleet) (steps : List PipelineStep)
    (staged : Staged [] steps) where
  found : All (λ s. find_step s.id steps ≡ some s) steps
  found = Staged-found [] steps staged

  owned : All (λ s. any (step_is s.id) steps ≡ true) steps
  owned = own_steps steps

  ready_steps : (m : Map StepStatus) → List PipelineStep
  ready_steps m = keep (is_ready m) steps

  pairs :
      (P Q : PipelineStep → Type 0) (ss : List PipelineStep)
      → All P ss
      → All Q ss
      → All (λ s. P s × Q s) ss
  pairs P Q [] h k = tt
  pairs P Q (s ∷ ss) (p, h) (q, k) = ((p, q), pairs P Q ss h k)

  pub next_batch-IsNext :
      (x : Execution) → All (IsNext steps x.statuses) (next_batch w fleet steps x)
  unfolding ready_pipeline_step_ids
  next_batch-IsNext x =
      let m = x.statuses in
      found_steps (IsNext steps m) steps pipeline_max_parallel_steps (keep (is_ready m) steps) (
        All-mono
          (λ s.
            ((find_step s.id steps ≡ some s) × (any (step_is s.id) steps ≡ true))
            × (is_ready m s ≡ true))
          (λ s. (find_step s.id steps ≡ some s) × IsNext steps m s) (keep (is_ready m) steps)
          (λ s h. (h.0.0, (h.0.1, h.0.0, h.1)))
          (keep-All (is_ready m)
            (λ s. (find_step s.id steps ≡ some s) × (any (step_is s.id) steps ≡ true)) steps
            (pairs (λ s. find_step s.id steps ≡ some s) (λ s. any (step_is s.id) steps ≡ true) steps
              found owned)))

  -- With no batch to dispatch, all has passed.
  pub no_batch :
      (x : Execution)
      → AtTop steps x
      → next_batch w fleet steps x ≡ []
      → (k : String) → any (step_is k) steps ≡ true
      → get k x.statuses ≡ some passed
  unfolding ready_pipeline_step_ids
  no_batch x h e =
      none_ready x.statuses [] steps staged (λ d bad. absurd (cc)) (waits steps owned)
        (found_some steps 3 (keep (is_ready x.statuses) steps)
          (All-mono (λ s. (find_step s.id steps ≡ some s) × (is_ready x.statuses s ≡ true))
            (λ s. find_step s.id steps ≡ some s) (keep (is_ready x.statuses) steps) (λ s k. k.0)
            (keep-All (is_ready x.statuses) (λ s. find_step s.id steps ≡ some s) steps found))
          e)
    where
      waits :
          (ss : List PipelineStep)
          → All (λ s. any (step_is s.id) steps ≡ true) ss
          → All (λ s. (get s.id x.statuses ≡ some pending) ⊎ (get s.id x.statuses ≡ some passed)) ss
      waits [] own = tt
      waits (s ∷ ss) (first, own) = (
        elim (Option-cases (get s.id x.statuses)) [
          | inl gone ↦ absurd (let b = h.shape.every s.id first in cc)
          | inr (v, there) ↦ elim (h.waiting s.id v there) [
            | inl e' ↦ inl (there ∙ ap some e')
            | inr e' ↦ inr (there ∙ ap some e')
          ]
        ],
        waits ss own,
      )

  ready_logged :
      (x : Execution) (ds : List String)
      → PassedLogged x
      → all (λ d. is_passed (get d x.statuses)) ds ≡ true
      → all (λ d. any (says_passed d) x.log) ds ≡ true
  ready_logged x [] h e = refl
  ready_logged x (d ∷ ds) h e = elim (Bool-cases (is_passed (get d x.statuses))) [
    | inr bad ↦ absurd (let b : false ≡ true = rw bad at e in cc)
    | inl good ↦
        rw (h d (passed_status (get d x.statuses) good)) (ready_logged x ds h (rw good at e))
  ]
    where
      passed_status : (o : Option StepStatus) → is_passed o ≡ true → o ≡ some passed
      passed_status none b = absurd (cc)
      passed_status (some passed) b = refl
      passed_status (some pending) b = absurd (cc)
      passed_status (some running) b = absurd (cc)
      passed_status (some failed) b = absurd (cc)
      passed_status (some skipped) b = absurd (cc)
      passed_status (some cancelled) b = absurd (cc)

  second_true : (a b : Bool) → a && b ≡ true → b ≡ true
  second_true true b h = h
  second_true false b h = absurd (cc)

  -- The batch may start: what its steps depend on was said to pass.
  pub next_batch-Startable :
      (x : Execution) (batch : List PipelineStep)
      → PassedLogged x
      → All (IsNext steps x.statuses) batch
      → All (MayStart (EventFits steps x.log)) batch
  next_batch-Startable x [] logged h = tt
  next_batch-Startable x (t ∷ ts) logged ((own, is_found, ready), h) = (
    λ n.
        subst (λ o. all (λ d. any (says_passed d) x.log) (depends_of o) ≡ true) (sym is_found)
          (ready_logged x t.depends_on logged
            (second_true (not_started (get t.id x.statuses)) _ ready)),
    next_batch-Startable x ts logged h,
  )
