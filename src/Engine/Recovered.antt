-- ===== src/Engine/Recovered.antt =====
-- The stored runs and their step runs after a restart.
use asterim.Prelude.{
  ℕ, ◌≡◌, refl, sym, ap, ◌∙◌, subst, arith, ◌⊎◌, inl, inr, String, Bool, true, false, not, Option,
  none, some, List, [], ◌∷◌, if◌then◌else◌, str_eq, str_eq_iff, str_eq_comm, str_eq-cases,
  Bool-cases, includes, length, count_values, Map, get, get-put, IsKeyed,
}
use mathlib.Core.Option
use asterim.Pipeline.Graph.{
  StepStatus, pending, running, passed, failed, skipped, cancelled, run_cancelled,
}
use asterim.Engine.Types.{StepRunRow, stopped, message}
use asterim.Engine.Loop.{is_open}
use asterim.Engine.Stored.{
  StoredRun, Stored, is_terminal_pipeline_run_status, cancel_row_if, cancel_row, cancel_rows,
  cancel_stored, update_run, unfinished, recover_each, recover_runs,
}

abbrev pub is_terminal : StoredRun → Bool
is_terminal s = is_terminal_pipeline_run_status s.run.status

-- A step run after the restart: one that was pending or running is cancelled at that time with the
-- reason, and any other is as it was.
abbrev pub SettledRow : ℕ → String → StepRunRow → StepRunRow → Type 0
SettledRow at why r r' =
    (((r.status ≡ pending) ⊎ (r.status ≡ running))
      × (r' ≡ record r {
        status = cancelled;
        completed_at = some at;
        error_message = some (message (stopped why));
      }))
    ⊎ (¬ ((r.status ≡ pending) ⊎ (r.status ≡ running)) × (r' ≡ r))

-- Row by row, none lost and none added.
abbrev pub SettledRows : ℕ → String → List StepRunRow → List StepRunRow → Type 0
SettledRows at why [] [] = Unit
SettledRows at why (r ∷ rs) (r' ∷ rs') = SettledRow at why r r' × SettledRows at why rs rs'
SettledRows at why [] (r' ∷ rs') = ⊥
SettledRows at why (r ∷ rs) [] = ⊥

open-cases :
    (v : StepStatus)
    → ((is_open (some v) ≡ true) × ((v ≡ pending) ⊎ (v ≡ running)))
      ⊎ ((is_open (some v) ≡ false) × ¬ ((v ≡ pending) ⊎ (v ≡ running)))
open-cases pending = inl (refl, inl refl)
open-cases running = inl (refl, inr refl)
open-cases passed = inr (refl, λ h. elim h [ inl e ↦ absurd (cc) | inr e ↦ absurd (cc) ])
open-cases failed = inr (refl, λ h. elim h [ inl e ↦ absurd (cc) | inr e ↦ absurd (cc) ])
open-cases skipped = inr (refl, λ h. elim h [ inl e ↦ absurd (cc) | inr e ↦ absurd (cc) ])
open-cases cancelled = inr (refl, λ h. elim h [ inl e ↦ absurd (cc) | inr e ↦ absurd (cc) ])

cancel_row-SettledRow :
    (at : ℕ) (why : String) (r : StepRunRow) → SettledRow at why r (cancel_row at why r)
cancel_row-SettledRow at why r = elim (open-cases r.status) [
  | inl (e, live) ↦ inl (live, ap (λ b. cancel_row_if b at why r) e)
  | inr (e, over) ↦ inr (over, ap (λ b. cancel_row_if b at why r) e)
]

cancel_rows-SettledRows :
    (at : ℕ) (why : String) (rs : List StepRunRow) → SettledRows at why rs (cancel_rows at why rs)
cancel_rows-SettledRows at why [] = tt
cancel_rows-SettledRows at why (r ∷ rs) =
    (cancel_row-SettledRow at why r, cancel_rows-SettledRows at why rs)

unfinished-includes :
    (runs : Map StoredRun) (k : String)
    → IsKeyed runs
    → includes k (unfinished runs)
      ≡ (elim (get k runs) [ none ↦ false | some s ↦ not (is_terminal s) ])
unfolding unfinished get
unfinished-includes [] k keyed = refl
unfinished-includes ((j, s) ∷ runs) k (fresh, keyed) =
    let rest = unfinished-includes runs k keyed in
    elim (str_eq-cases j k) [
      | inr other ↦ elim (Bool-cases (is_terminal s)) [
        | inl e ↦ rw (e, other) rest
        | inr e ↦ rw (e, other, str_eq_comm k j, other) rest
      ]
      | inl same ↦
          let hit : str_eq j k ≡ true = (str_eq_iff j k).1 same in
          let gone : get k runs ≡ none = subst (λ i. get i runs ≡ none) same fresh in
          elim (Bool-cases (is_terminal s)) [
            | inl e ↦ rw (e, hit, e) (rest ∙ rw gone refl)
            | inr e ↦ rw (e, hit, str_eq_comm k j, hit, e) refl
          ]
    ]

unfinished-length :
    (runs : Map StoredRun) → length (unfinished runs) ≡ count_values (λ s. not (is_terminal s)) runs
unfolding unfinished
unfinished-length [] = refl
unfinished-length ((j, s) ∷ runs) = elim (Bool-cases (is_terminal s)) [
  | inl e ↦ rw e (omega (arith, unfinished-length runs))
  | inr e ↦ rw e (omega (arith, unfinished-length runs))
]

module _ (at : ℕ) (why : String) where
  cancel_row-twice :
      (r : StepRunRow) → cancel_row at why (cancel_row at why r) ≡ cancel_row at why r
  cancel_row-twice r = elim (Bool-cases (is_open (some r.status))) [
    | inl e ↦ let c = ap (λ b. cancel_row_if b at why r) e in ap (cancel_row at why) c ∙ sym c
    | inr e ↦ let c = ap (λ b. cancel_row_if b at why r) e in ap (cancel_row at why) c
  ]

  cancel_rows-twice :
      (rs : List StepRunRow) → cancel_rows at why (cancel_rows at why rs) ≡ cancel_rows at why rs
  cancel_rows-twice [] = refl
  cancel_rows-twice (r ∷ rs) =
      ap (λ k. k ∷ cancel_rows at why (cancel_rows at why rs)) (cancel_row-twice r)
      ∙ ap (λ ks. cancel_row at why r ∷ ks) (cancel_rows-twice rs)

  abbrev cancelled_run : Option StoredRun → Option StoredRun
  cancelled_run o = Option.map (cancel_stored at why) o

  cancelled_run-twice : (o : Option StoredRun) → cancelled_run (cancelled_run o) ≡ cancelled_run o
  cancelled_run-twice none = refl
  cancelled_run-twice (some s) =
      ap (λ rs. some (record (cancel_stored at why s) { steps = rs })) (cancel_rows-twice s.steps)

  get-update_run :
      (id k : String) (o : Option StoredRun) (runs : Map StoredRun)
      → get id runs ≡ o
      → get k (update_run (cancel_stored at why) id o runs)
        ≡ (if str_eq id k then cancelled_run (get k runs) else get k runs)
  get-update_run id k none runs e = elim (str_eq-cases id k) [
    | inr other ↦ rw other refl
    | inl same ↦
        let gone : get k runs ≡ none = subst (λ i. get i runs ≡ none) same e in
        rw ((str_eq_iff id k).1 same, gone) refl
  ]
  get-update_run id k (some s) runs e = elim (str_eq-cases id k) [
    | inr other ↦ rw (get-put k id (cancel_stored at why s) runs, other) refl
    | inl same ↦
        let there : get k runs ≡ some s = subst (λ i. get i runs ≡ some s) same e in
        rw (get-put k id (cancel_stored at why s) runs, (str_eq_iff id k).1 same, there) refl
  ]

  -- The loop cancels the runs of these ids, and leaves the others alone.
  get-recover_each :
      (ids : List String) (k : String) (runs : Map StoredRun)
      → get k (recover_each at why ids runs)
        ≡ (if includes k ids then cancelled_run (get k runs) else get k runs)
  unfolding recover_each
  get-recover_each [] k runs = refl
  get-recover_each (id ∷ ids) k runs =
      let runs' : Map StoredRun = update_run (cancel_stored at why) id (get id runs) runs in
      let own = get-update_run id k (get id runs) runs refl in
      get-recover_each ids k runs' ∙ (elim (str_eq-cases id k) [
        | inr other ↦
            let same : get k runs' ≡ get k runs = rw other at own in
            rw (str_eq_comm k id, other)
              (ap (λ o. if includes k ids then cancelled_run o else o) same)
        | inl here ↦
            let hit : str_eq id k ≡ true = (str_eq_iff id k).1 here in
            let done : get k runs' ≡ cancelled_run (get k runs) = rw hit at own in
            rw (str_eq_comm k id, hit)
              (ap (λ o. if includes k ids then cancelled_run o else o) done
                ∙ either (includes k ids) (get k runs))
      ])
    where
      either :
          (b : Bool) (o : Option StoredRun)
          → (if b then cancelled_run (cancelled_run o) else cancelled_run o) ≡ cancelled_run o
      either true o = cancelled_run-twice o
      either false o = refl

-- What becomes of a run: it stays as it is if it was over; otherwise its row says that it was
-- cancelled, when and why, and so does each of its step runs that was pending or running.
abbrev pub Settles : ℕ → String → StoredRun → StoredRun → Type 0
Settles at why s s' =
    ((is_terminal s ≡ true) × (s' ≡ s))
    ⊎ ((is_terminal s ≡ false)
        × (s'.run ≡ record (s.run) {
          status = run_cancelled;
          completed_at = some at;
          error_message = some (message (stopped why));
        })
        × SettledRows at why s.steps s'.steps)

-- `recoverRuns` leaves every run that was over as it is. Every other one is cancelled with the time
-- and the reason, and with it each of its step runs that was pending or running; its other step runs
-- keep what they say, and no row is lost or added. It returns how many runs it cancelled.
pub recover_runs-Settles :
    (at : ℕ) (why : String) (x : Stored)
    → IsKeyed x.runs
    → ((k : String) (s : StoredRun)
        → get k x.runs ≡ some s
        → (s' : StoredRun) × (get k (recover_runs at why x).0.runs ≡ some s') × Settles at why s s')
      × ((recover_runs at why x).1 ≡ count_values (λ s. not (is_terminal s)) x.runs)
unfolding recover_runs
recover_runs-Settles at why x keyed = (
  λ k s there.
      let listed : includes k (unfinished x.runs) ≡ not (is_terminal s) =
        unfinished-includes x.runs k keyed
        ∙ ap (λ o. elim o [ none ↦ false | some u ↦ not (is_terminal u) ]) there in
      let after = get-recover_each at why (unfinished x.runs) k x.runs in
      elim (Bool-cases (is_terminal s)) [
        | inl e ↦ (s, (rw (listed, e) at after) ∙ there, inl (e, refl))
        | inr e ↦ (
          cancel_stored at why s,
          (rw (listed, e) at after) ∙ ap (λ o. Option.map (cancel_stored at why) o) there,
          inr (e, refl, cancel_rows-SettledRows at why s.steps),
        )
      ],
  unfinished-length x.runs,
)
