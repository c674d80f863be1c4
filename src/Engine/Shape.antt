-- ===== src/Engine/Shape.antt =====
-- What every step of `execute` keeps, and what `finish` makes of the statuses.
use asterim.Prelude.{
  ℕ, ◌≡◌, ◌↔◌, refl, sym, ap, ◌∙◌, subst, inl, inr, String, Bool, true, false, ◌||◌, Option, none,
  some, List, [], ◌∷◌, ◌++◌, append-nil, append_assoc, ◌&&◌, str_eq, str_eq_refl, str_eq-cases,
  Bool-cases, Option-cases, is_some, any, all, All, AllValues, Map, get, IsKeyed,
}
use asterim.Pipeline.Graph.{
  StepStatus, pending, running, passed, failed, skipped, cancelled, PipelineStep, ids_of,
  same_status,
}
use asterim.Pipeline.Status.{
  is_run_passed, is_run_over, stops_run, aggregate_pipeline_run_status-passed,
}
use asterim.Pipeline.Cycle.{depends_of}
use asterim.Engine.Types.{Event, step_started, step_completed, Execution, Reason}
use asterim.Engine.Loop.{is_open, values, finish}
use asterim.Engine.Dispatch.{find_step}
use asterim.Engine.Changes.{
  step_is, says_passed, Change, Change-status, Change-is_some, Change-IsKeyed, RowAgrees, row_ids,
  Change-row_ids, Change-rows, Change-log, PassedLogged, Change-logged, any-append,
}

or_first : (a b : Bool) → a ≡ true → a || b ≡ true
or_first true b h = refl
or_first false b h = absurd (cc)

-- Everything that a step depends on was said to pass before the step is said to start.
abbrev pub EventFits : List PipelineStep → List Event → Event → Type 0
EventFits steps before (step_started id n) =
    all (λ d. any (says_passed d) before) (depends_of (find_step id steps)) ≡ true
EventFits steps before (step_completed id v) = Unit

abbrev pub LogFits : List PipelineStep → List Event → List Event → Type 0
LogFits steps before [] = Unit
LogFits steps before (e ∷ es) = EventFits steps before e × LogFits steps (before ++ e ∷ []) es

all-more :
    (before more : List Event) (ds : List String)
    → all (λ d. any (says_passed d) before) ds ≡ true
    → all (λ d. any (says_passed d) (before ++ more)) ds ≡ true
all-more before more [] h = refl
all-more before more (d ∷ ds) h = elim (Bool-cases (any (says_passed d) before)) [
  | inr bad ↦ absurd (let b : false ≡ true = rw bad at h in cc)
  | inl good ↦
      rw (any-append (says_passed d) before more, good) (all-more before more ds (rw good at h))
]

EventFits-more :
    (steps : List PipelineStep) (before more : List Event) (e : Event)
    → EventFits steps before e
    → EventFits steps (before ++ more) e
EventFits-more steps before more (step_started id n) h =
    all-more before more (depends_of (find_step id steps)) h
EventFits-more steps before more (step_completed id v) h = tt

LogFits-all :
    (steps : List PipelineStep) (start before es : List Event)
    → All (EventFits steps start) es
    → LogFits steps (start ++ before) es
LogFits-all steps start before [] h = tt
LogFits-all steps start before (e ∷ es) (first, h) = (
  EventFits-more steps start before e first,
  subst (λ l. LogFits steps l es) (sym (append_assoc start before (e ∷ [])))
      (LogFits-all steps start (before ++ e ∷ []) es h),
)

LogFits-append :
    (steps : List PipelineStep) (before xs ys : List Event)
    → LogFits steps before xs
    → LogFits steps (before ++ xs) ys
    → LogFits steps before (xs ++ ys)
LogFits-append steps before [] ys h k = subst (λ l. LogFits steps l ys) (append-nil before) k
LogFits-append steps before (x ∷ xs) ys (first, h) k = (
  first,
  LogFits-append steps (before ++ x ∷ []) xs ys h
      (subst (λ l. LogFits steps l ys) (sym (append_assoc before (x ∷ []) xs)) k),
)

-- The statuses are those of the steps, the rows have them, and the log fits.
pub record Shape (steps : List PipelineStep) (x : Execution) : Type 0 where
  pub keyed : IsKeyed x.statuses
  pub only : (k : String) → is_some (get k x.statuses) ≡ true → any (step_is k) steps ≡ true
  pub every : (k : String) → any (step_is k) steps ≡ true → is_some (get k x.statuses) ≡ true
  pub rows_of : row_ids x.rows ≡ ids_of steps
  pub agree : All (RowAgrees x.statuses) x.rows
  pub logged : PassedLogged x
  pub sound : LogFits steps [] x.log

pub Change-Shape :
    {Ok : String → StepStatus → Type 0} {Ev : Event → Type 0} (steps : List PipelineStep)
    (x y : Execution)
    → Change Ok Ev x y
    → ((k : String) (v : StepStatus) → Ok k v → any (step_is k) steps ≡ true)
    → ((e : Event) → Ev e → EventFits steps x.log e)
    → Shape steps x
    → Shape steps y
Change-Shape {Ok} {Ev} steps x y c own fit h = record {
  keyed = Change-IsKeyed c h.keyed;
  only = λ k e. elim (Option-cases (get k y.statuses)) [
    | inl gone ↦ absurd (cc)
    | inr (v, there) ↦ elim (Change-status k v c there) [
      | inl before ↦ h.only k (ap is_some before)
      | inr written ↦ own k v written
    ]
  ];
  every = λ k e. Change-is_some k c (h.every k e);
  rows_of = Change-row_ids c ∙ h.rows_of;
  agree = Change-rows c h.agree;
  logged = Change-logged c h.logged;
  sound =
      let (es, l, evs) = Change-log c in
      subst (LogFits steps []) (sym l) (
        LogFits-append steps [] x.log es h.sound (
          subst (λ k. LogFits steps k es) (append-nil x.log)
            (LogFits-all steps x.log [] es (all_fit es evs))));
}
  where
    all_fit : (es : List Event) → All Ev es → All (EventFits steps x.log) es
    all_fit [] evs = tt
    all_fit (e ∷ es) (first, evs) = (fit e first, all_fit es evs)

AllValues-of_get :
    (P : StepStatus → Type 0) (m : Map StepStatus)
    → IsKeyed m
    → ((k : String) (v : StepStatus) → get k m ≡ some v → P v)
    → AllValues P m
unfolding get
AllValues-of_get P [] keyed h = tt
AllValues-of_get P ((j, w) ∷ m) (fresh, keyed) h = (
  h j w (rw (str_eq_refl j) refl),
  AllValues-of_get P m keyed (λ k v e. elim (str_eq-cases j k) [
    | inl same ↦ let gone : get k m ≡ none = subst (λ i. get i m ≡ none) same fresh in absurd (cc)
    | inr other ↦ h k v (rw other e)
  ]),
)

closed_over :
    (m : Map StepStatus)
    → AllValues (λ v. is_open (some v) ≡ false) m
    → any stops_run (values m) || all (same_status passed) (values m) ≡ true
closed_over [] h = refl
closed_over ((k, passed) ∷ m) (first, h) = closed_over m h
closed_over ((k, failed) ∷ m) (first, h) = refl
closed_over ((k, skipped) ∷ m) (first, h) = refl
closed_over ((k, cancelled) ∷ m) (first, h) = refl
closed_over ((k, pending) ∷ m) (first, h) = absurd (cc)
closed_over ((k, running) ∷ m) (first, h) = absurd (cc)

all_passed_get :
    (m : Map StepStatus) (k : String)
    → all (same_status passed) (values m) ≡ true
    → is_some (get k m) ≡ true
    → get k m ≡ some passed
unfolding get
all_passed_get [] k h there = absurd (cc)
all_passed_get ((j, v) ∷ m) k h there = elim (Bool-cases (str_eq j k)) [
  | inl e ↦ rw e (ap some (is_passed_status v (first_true _ _ h)))
  | inr e ↦ rw e (all_passed_get m k (second_true (same_status passed v) _ h) (rw e at there))
]
  where
    first_true : (a b : Bool) → a && b ≡ true → a ≡ true
    first_true true b t = refl
    first_true false b t = absurd (cc)

    second_true : (a b : Bool) → a && b ≡ true → b ≡ true
    second_true true b t = t
    second_true false b t = absurd (cc)

    is_passed_status : (u : StepStatus) → same_status passed u ≡ true → u ≡ passed
    is_passed_status passed t = refl
    is_passed_status pending t = absurd (cc)
    is_passed_status running t = absurd (cc)
    is_passed_status failed t = absurd (cc)
    is_passed_status skipped t = absurd (cc)
    is_passed_status cancelled t = absurd (cc)

passed_values :
    (m : Map StepStatus)
    → AllValues (λ v. v ≡ passed) m
    → all (same_status passed) (values m) ≡ true
passed_values [] h = refl
passed_values ((k, v) ∷ m) (first, h) = rw first (passed_values m h)

-- How a run ends.
pub record IsOver (steps : List PipelineStep) (y : Execution) : Type 0 where
  pub over : is_run_over y.run.status ≡ true
  pub passes :
      (is_run_passed y.run.status ≡ true)
      ↔ ((k : String) → any (step_is k) steps ≡ true → get k y.statuses ≡ some passed)
  pub closed : (k : String) → any (step_is k) steps ≡ true → is_open (get k y.statuses) ≡ false
  pub rows_of : row_ids y.rows ≡ ids_of steps
  pub agree : All (RowAgrees y.statuses) y.rows
  pub sound : LogFits steps [] y.log

pub finish-IsOver :
    (steps : List PipelineStep) (at : ℕ) (reason : Option Reason) (x : Execution)
    → Shape steps x
    → ((k : String) → any (step_is k) steps ≡ true → is_open (get k x.statuses) ≡ false)
    → IsOver steps (finish at reason x)
unfolding finish
finish-IsOver steps at reason x h closed =
    let (is_passed, is_over) = aggregate_pipeline_run_status-passed (values x.statuses) in
    record {
      over =
          is_over
          ∙ closed_over x.statuses (
              AllValues-of_get (λ v. is_open (some v) ≡ false) x.statuses h.keyed
                (λ k v e. sym (ap is_open e) ∙ closed k (h.only k (ap is_some e))));
      passes = (
        λ ok k own. all_passed_get x.statuses k (sym is_passed ∙ ok) (h.every k own),
        λ all_passed.
            is_passed
            ∙ passed_values x.statuses (
                AllValues-of_get (λ v. v ≡ passed) x.statuses h.keyed
                  (λ k v e.
                    let p : get k x.statuses ≡ some passed =
                      all_passed k (h.only k (ap is_some e)) in
                    cc)),
      );
      closed = closed;
      rows_of = h.rows_of;
      agree = h.agree;
      sound = h.sound;
    }
