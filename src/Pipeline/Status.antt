-- ===== src/Pipeline/Status.antt =====
-- The status of a run.
use asterim.Prelude.{
  ◌≡◌, refl, arith, Bool, true, false, not, ◌||◌, List, [], ◌∷◌, if◌then◌else◌, any, all,
}
use asterim.Pipeline.Graph.{
  RunStatus, run_running, run_passed, run_failed, run_cancelled, StepStatus, pending, running,
  passed, failed, skipped, cancelled, same_status, aggregate_pipeline_run_status,
}

abbrev pub is_run_passed : RunStatus → Bool
is_run_passed run_passed = true
is_run_passed _ = false

abbrev pub is_run_over : RunStatus → Bool
is_run_over run_passed = true
is_run_over run_failed = true
is_run_over run_cancelled = true
is_run_over _ = false

-- A status that stops the run.
abbrev pub stops_run : StepStatus → Bool
stops_run cancelled = true
stops_run failed = true
stops_run skipped = true
stops_run _ = false

abbrev has_status : StepStatus → List StepStatus → Bool
has_status status statuses = any (same_status status) statuses

unpassed : List StepStatus → Bool
unpassed xs =
    has_status cancelled xs
    || has_status failed xs
    || has_status skipped xs
    || has_status running xs
    || has_status pending xs

all-passed : (xs : List StepStatus) → all (same_status passed) xs ≡ not (unpassed xs)
unfolding unpassed
all-passed [] = refl
all-passed (passed ∷ xs) = all-passed xs
all-passed (pending ∷ xs) = ground arith
all-passed (running ∷ xs) = ground arith
all-passed (failed ∷ xs) = ground arith
all-passed (skipped ∷ xs) = ground arith
all-passed (cancelled ∷ xs) = ground arith

any-stops_run :
    (xs : List StepStatus)
    → any stops_run xs ≡ (has_status cancelled xs || has_status failed xs || has_status skipped xs)
any-stops_run [] = refl
any-stops_run (passed ∷ xs) = any-stops_run xs
any-stops_run (pending ∷ xs) = any-stops_run xs
any-stops_run (running ∷ xs) = any-stops_run xs
any-stops_run (failed ∷ xs) = ground arith
any-stops_run (skipped ∷ xs) = ground arith
any-stops_run (cancelled ∷ xs) = ground arith

-- A run counts as passed exactly when every step of it passed, and as over exactly when every step
-- passed or some step was cancelled, failed or was skipped.
pub aggregate_pipeline_run_status-passed :
    (statuses : List StepStatus)
    → (is_run_passed (aggregate_pipeline_run_status statuses) ≡ all (same_status passed) statuses)
      × (is_run_over (aggregate_pipeline_run_status statuses)
          ≡ (any stops_run statuses || all (same_status passed) statuses))
unfolding aggregate_pipeline_run_status unpassed
aggregate_pipeline_run_status-passed statuses =
    rw (all-passed statuses, any-stops_run statuses)
      (decided (has_status cancelled statuses) (has_status failed statuses)
        (has_status skipped statuses) (has_status running statuses) (has_status pending statuses))
  where
    verdict : (c f s r p : Bool) → RunStatus
    verdict c f s r p =
        if c
        then run_cancelled
        else if f
        then run_failed
        else if s
        then run_failed
        else if r
        then run_running
        else if p
        then run_running
        else run_passed

    decided :
        (c f s r p : Bool)
        → (is_run_passed (verdict c f s r p) ≡ not (c || f || s || r || p))
          × (is_run_over (verdict c f s r p) ≡ ((c || f || s) || not (c || f || s || r || p)))
    decided true f s r p = (refl, refl)
    decided false true s r p = (refl, refl)
    decided false false true r p = (refl, refl)
    decided false false false true p = (refl, refl)
    decided false false false false true = (refl, refl)
    decided false false false false false = (refl, refl)
