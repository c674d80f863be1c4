-- ===== src/Engine/Passing.antt =====
-- A batch of which every delegation completes.
use asterim.Prelude.{
  ℕ, zero, suc, ◌≡◌, refl, sym, ap, ◌∙◌, subst, arith, ◌⊎◌, inl, inr, String, true, Option, none,
  some, List, [], ◌∷◌, ◌++◌, map, append-nil, append_assoc, str_eq, Bool-cases, any, length, All,
  Map, get, get-put,
}
use asterim.Pipeline.Graph.{StepStatus, passed, PipelineStep}
use asterim.Engine.Types.{
  DelegationResult, PipelineStepWorktree, Fleet, Checkout, Request, Provision, provisioned,
  answered, committed, World, Execution,
}
use asterim.Engine.Dispatch.{
  is_completed, start_batch, is_false, Prepared, known_chain, provision_step_worktree,
  prepare_answered, prepare_each, request_of, match_results, outcomes_of, Outcomes, answer,
  delegate_prepared, dispatch, retrying, retry, retry_fuel, dispatch_with_retries,
}
use asterim.Engine.Loop.{verdict_of, passed_verdict, record_outcome, record_outcomes, first_failed}
use asterim.Engine.Changes.{step_is}
use asterim.Engine.Ready.{own_steps}

-- Nobody cancels, every checkout is provisioned, every delegation answers each of its requests with a
-- completed result, and every settlement commits.
pub record IsCalm (w : World) : Type 0 where
  pub uncancelled : (tick : ℕ) → w.cancel_reason tick ≡ none
  pub provisions :
      (tick : ℕ) (c : Checkout) → (t : PipelineStepWorktree) × (w.provision tick c ≡ provisioned t)
  pub completes :
      (tick : ℕ) (rs : List Request)
      → (xs : List DelegationResult) × (w.delegate tick rs ≡ answered xs)
        × (length xs ≡ length rs)
        × All (λ x. is_completed (some x) ≡ true) xs
  pub commits :
      (tick : ℕ) (t : PipelineStepWorktree) → (sha : String) × (w.settle tick t ≡ committed sha)

-- The results that are matched to steps by position are completed.
match_results-completed :
    (ss : List PipelineStep) (xs : List DelegationResult) (k : String)
    → length xs ≡ length ss
    → All (λ x. is_completed (some x) ≡ true) xs
    → any (step_is k) ss ≡ true
    → is_completed (get k (match_results ss xs)) ≡ true
unfolding match_results
match_results-completed [] xs k e h own = absurd (cc)
match_results-completed (s ∷ ss) [] k e h own = absurd (omega (arith, e))
match_results-completed (s ∷ ss) (x ∷ xs) k e (first, h) own = elim (Bool-cases (str_eq s.id k)) [
  | inl here ↦ rw (get-put k s.id x (match_results ss xs), here) first
  | inr other ↦
      rw (get-put k s.id x (match_results ss xs), other)
        (match_results-completed ss xs k (omega (arith, e)) h (rw other at own))
]

abbrev pub AllCompleted : Outcomes → Type 0
AllCompleted os = All (λ o. is_completed o.1 ≡ true) os

answer-AllCompleted :
    (outcomes : Map DelegationResult) (ss batch : List PipelineStep)
    → ((k : String) → any (step_is k) batch ≡ true → is_completed (get k outcomes) ≡ true)
    → All (λ s. any (step_is s.id) batch ≡ true) ss
    → AllCompleted (answer [] outcomes ss)
unfolding answer get
answer-AllCompleted outcomes [] batch h own = tt
answer-AllCompleted outcomes (s ∷ ss) batch h (first, own) =
    (h s.id first, answer-AllCompleted outcomes ss batch h own)

length-map : {A : Type 0} {B : Type 0} (f : A → B) (xs : List A) → length (map f xs) ≡ length xs
length-map f [] = refl
length-map f (x ∷ xs) = ap suc (length-map f xs)

module _ (w : World) (fleet : Option Fleet) (steps : List PipelineStep) (calm : IsCalm w) where
  -- Every step of the batch is ready to be delegated.
  abbrev Provided : List PipelineStep → Prepared → Prepared → Type 0
  Provided ss p q = (q.failures ≡ p.failures) × (q.dispatchable ≡ p.dispatchable ++ ss)

  provision_answer :
      (tick : ℕ) (s : PipelineStep) (f : Option Fleet)
      → (provision_step_worktree w fleet steps tick s f ≡ none)
        ⊎ ((t : PipelineStepWorktree) × (provision_step_worktree w fleet steps tick s f
              ≡ some (provisioned t)))
  provision_answer tick s none = inl refl
  provision_answer tick s (some f) = elim (Bool-cases (is_false s.isolate_worktree)) [
    | inl e ↦ inl (rw e refl)
    | inr e ↦
        let c : Checkout = record {
          repo_path = f.repo_path;
          step_id = s.id;
          base_commit = f.base_commit;
          chain_from = known_chain w fleet steps s;
        } in
        let (t, given) = calm.provisions tick c in inr (t, rw e (ap some given))
  ]

  prepare_answered-Provided :
      (o : Option Provision) (s : PipelineStep) (p : Prepared)
      → (o ≡ none) ⊎ ((t : PipelineStepWorktree) × (o ≡ some (provisioned t)))
      → Provided (s ∷ []) p (prepare_answered w fleet steps o s p)
  unfolding prepare_answered
  prepare_answered-Provided o s p (inl e) = rw e (refl, refl)
  prepare_answered-Provided o s p (inr (t, e)) = rw e (refl, refl)

  prepare_each-Provided :
      (ss : List PipelineStep) (p : Prepared) → Provided ss p (prepare_each w fleet steps ss p)
  unfolding prepare_each
  prepare_each-Provided [] p = (refl, sym (append-nil p.dispatchable))
  prepare_each-Provided (s ∷ ss) p =
      let o = provision_step_worktree w fleet steps (suc p.execution.tick) s fleet in
      let q : Prepared = prepare_answered w fleet steps o s p in
      let (f, d) =
        prepare_answered-Provided o s p (provision_answer (suc p.execution.tick) s fleet) in
      let (f', d') = prepare_each-Provided ss q in
      (f' ∙ f, d' ∙ (ap (λ k. k ++ ss) d ∙ append_assoc p.dispatchable (s ∷ []) ss))

  delegate_prepared-AllCompleted :
      (able : List PipelineStep) (p : Prepared)
      → p.failures ≡ []
      → AllCompleted (delegate_prepared w fleet steps able able p).1
  unfolding delegate_prepared answer
  delegate_prepared-AllCompleted [] p e = tt
  delegate_prepared-AllCompleted (s ∷ ss) p e =
      let tick : ℕ = suc p.execution.tick in
      let requests : List Request = map (request_of steps p.execution) (s ∷ ss) in
      let (xs, given, sized, all_done) = calm.completes tick requests in
      subst
        (λ f. AllCompleted (answer f (outcomes_of (s ∷ ss) (w.delegate tick requests)) (s ∷ ss)))
        (sym e)
        (subst (λ d. AllCompleted (answer [] (outcomes_of (s ∷ ss) d) (s ∷ ss))) (sym given)
          (answer-AllCompleted (match_results (s ∷ ss) xs) (s ∷ ss) (s ∷ ss)
            (λ k own.
              match_results-completed (s ∷ ss) xs k
                (sized ∙ length-map (request_of steps p.execution) (s ∷ ss)) all_done own)
            (own_steps (s ∷ ss))))

  dispatch-AllCompleted :
      (batch : List PipelineStep) (x : Execution) → AllCompleted (dispatch w fleet steps batch x).1
  unfolding dispatch
  dispatch-AllCompleted batch x =
      let p : Prepared = record {
        execution = start_batch (w.now x.tick) batch x;
        failures = [];
        dispatchable = [];
      } in
      let q : Prepared = prepare_each w fleet steps batch p in
      let (f, d) = prepare_each-Provided batch p in
      subst (λ able. AllCompleted (delegate_prepared w fleet steps able batch q).1) (sym d)
        (delegate_prepared-AllCompleted batch q f)

  nobody_retries :
      (x : Execution) (os : Outcomes) → AllCompleted os → retrying w fleet steps x os ≡ []
  nobody_retries x [] h = refl
  nobody_retries x (o ∷ os) (first, h) = rw first (nobody_retries x os h)

  pub dispatch_with_retries-AllCompleted :
      (batch : List PipelineStep) (x y : Execution) (os : Outcomes)
      → dispatch_with_retries w fleet steps batch x ≡ some (y, os)
      → AllCompleted os
  unfolding dispatch_with_retries retry
  dispatch_with_retries-AllCompleted batch x y os e =
      let first = dispatch w fleet steps batch x in
      let all_done = dispatch-AllCompleted batch x in
      from (retry_fuel w fleet steps batch) first.0 first.1 all_done e
    where
      from :
          (fuel : ℕ) (z : Execution) (rs : Outcomes)
          → AllCompleted rs
          → retry w fleet steps fuel z rs ≡ some (y, os)
          → AllCompleted os
      from zero z rs h e' = absurd (cc)
      from (suc fuel) z rs h e' =
          let settled : some (z, rs) ≡ some (y, os) =
            rw (calm.uncancelled z.tick, nobody_retries z rs h) at e' in
          subst AllCompleted (ap second settled) h
        where
          second : Option (Execution × Outcomes) → Outcomes
          second none = os
          second (some q) = q.1

  verdict_passed :
      (tick : ℕ) (t : Option PipelineStepWorktree) (r : Option DelegationResult)
      → is_completed r ≡ true
      → (verdict_of w tick none t r).status ≡ passed
  verdict_passed tick t r e = rw e (settled t)
    where
      settled : (t : Option PipelineStepWorktree) → (passed_verdict w tick none t).status ≡ passed
      settled none = refl
      settled (some t) = let (sha, given) = calm.commits (suc tick) t in rw given refl

  passed_stays :
      (os : Outcomes) (x : Execution) (k : String)
      → AllCompleted os
      → get k x.statuses ≡ some passed
      → get k (record_outcomes w none os x).statuses ≡ some passed
  unfolding record_outcomes record_outcome
  passed_stays [] x k h e = e
  passed_stays ((s, r) ∷ os) x k (first, h) e =
      let v = verdict_of w x.tick none (get s.id x.worktrees) r in
      passed_stays os (record_outcome w none (s, r) x) k h (elim (Bool-cases (str_eq s.id k)) [
        | inl here ↦
            rw (get-put k s.id v.status x.statuses, here)
              (ap some (verdict_passed x.tick (get s.id x.worktrees) r first))
        | inr other ↦ rw (get-put k s.id v.status x.statuses, other) e
      ])

  -- The steps of the outcomes pass.
  pub record_outcomes-passed :
      (os : Outcomes) (x : Execution) (k : String)
      → AllCompleted os
      → any (step_is k) (map (λ o. o.0) os) ≡ true
      → get k (record_outcomes w none os x).statuses ≡ some passed
  unfolding record_outcomes record_outcome
  record_outcomes-passed [] x k h own = absurd (cc)
  record_outcomes-passed ((s, r) ∷ os) x k (first, h) own =
      let v = verdict_of w x.tick none (get s.id x.worktrees) r in
      elim (Bool-cases (str_eq s.id k)) [
        | inr other ↦
            record_outcomes-passed os (record_outcome w none (s, r) x) k h (rw other at own)
        | inl here ↦ passed_stays os (record_outcome w none (s, r) x) k h (
            rw (get-put k s.id v.status x.statuses, here)
              (ap some (verdict_passed x.tick (get s.id x.worktrees) r first)))
      ]

-- With all of a batch passed, none of it has failed.
pub first_failed-passed :
    (m : Map StepStatus) (ss : List PipelineStep)
    → All (λ s. get s.id m ≡ some passed) ss
    → first_failed m ss ≡ none
unfolding first_failed
first_failed-passed m [] h = refl
first_failed-passed m (s ∷ ss) (first, h) = rw first (first_failed-passed m ss h)
