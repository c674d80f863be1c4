-- ===== src/Pipeline/Complete.antt =====
-- Without a cycle, `topologicalPipelineOrder` leaves no step out.
use asterim.Prelude.{
  ℕ, zero, suc, ◌≤◌, ◌<◌, ◌≡◌, refl, sym, subst, arith, ◌⊎◌, inl, inr, String, Bool, true, false,
  not, ◌||◌, some, List, [], ◌∷◌, str_eq, str_eq_refl, str_eq_iff, str_eq_comm, str_eq-cases,
  Bool-cases, Option-cases, get_or, is_some, get, IsKeyed, keep, includes, unique,
}
use asterim.Pipeline.Graph.{
  PipelineStep, Plan, plan_steps, known_dependencies, first_walk, Walk, fuel_of, finished_walk,
  ids_of,
}
use asterim.Pipeline.Prepared.{times, table_of, listed}
use asterim.Pipeline.Fuel.{finished_walk-queue}
use asterim.Pipeline.Release.{missing}
use asterim.Pipeline.Turn.{walk-held}
use asterim.Pipeline.Ordered.{
  dependency_table, empty_plan, mirrored_plan, first_walk-Inv, finished_walk-Follows,
  finished_walk-Follows,
}

or_true : {b : Bool} (a : Bool) → b ≡ true → a || b ≡ true
or_true true e = refl
or_true false e = e

pub kept_text :
    (p : String → Bool) (d : String) (xs : List String)
    → includes d (keep p xs) ≡ true
    → (includes d xs ≡ true) × (p d ≡ true)
kept_text p d [] h = absurd (cc)
kept_text p d (x ∷ xs) h = elim (Bool-cases (p x)) [
  | inr e ↦ let (there, good) = kept_text p d xs (rw e at h) in (or_true (str_eq d x) there, good)
  | inl e ↦ elim (str_eq-cases d x) [
    | inl same ↦ (rw (same, str_eq_refl x) refl, subst (λ y. p y ≡ true) (sym same) e)
    | inr other ↦
        let (there, good) = kept_text p d xs (rw (e, other) at h) in
        (or_true (str_eq d x) there, good)
  ]
]

pub unique_text :
    (d : String) (xs : List String) → includes d (unique xs) ≡ true → includes d xs ≡ true
unfolding unique
unique_text d [] h = absurd (cc)
unique_text d (x ∷ xs) h = elim (str_eq-cases d x) [
  | inl same ↦ rw (same, str_eq_refl x) refl
  | inr other ↦
      rw other
        (unique_text d xs (kept_text (λ y. not (str_eq y x)) d (unique xs) (rw other at h)).0)
]

-- A known dependency is a step.
pub dependency_step :
    (ids : List String) (a d : String) (ds : List String) (ss : List PipelineStep)
    → get a (table_of ids ss) ≡ some ds
    → includes d ds ≡ true
    → includes d ids ≡ true
unfolding get known_dependencies
dependency_step ids a d ds [] h e = absurd (cc)
dependency_step ids a d ds (s ∷ ss) h e = elim (Bool-cases (str_eq s.id a)) [
  | inr miss ↦ dependency_step ids a d ds ss (rw miss at h) e
  | inl hit ↦
      let same : known_dependencies ids s ≡ ds = ground arith in
      (kept_text (λ x. includes x ids) d s.depends_on
        (unique_text d (keep (λ x. includes x ids) s.depends_on)
          (subst (λ xs. includes d xs ≡ true) (sym same) e))).1
]

pub step_listed :
    (ids : List String) (d : String) (ss : List PipelineStep)
    → includes d (ids_of ss) ≡ true
    → is_some (get d (table_of ids ss)) ≡ true
unfolding get
step_listed ids d [] h = absurd (cc)
step_listed ids d (s ∷ ss) h = elim (str_eq-cases s.id d) [
  | inl same ↦ rw (same, str_eq_refl d) refl
  | inr other ↦ rw other (step_listed ids d ss (rw (str_eq_comm d s.id, other) at h))
]

pub absent_times : (d : String) (order : List String) → includes d order ≡ false → times d order ≡ 0
absent_times d [] h = refl
absent_times d (x ∷ order) h = elim (str_eq-cases d x) [
  | inl same ↦ absurd (ground (arith, str_eq_iff d x))
  | inr other ↦ rw (str_eq_comm x d, other) (omega (arith, absent_times d order (rw other at h)))
]

missing_one :
    (ds order : List String)
    → 1 ≤ missing ds order
    → (d : String) × (includes d ds ≡ true) × (includes d order ≡ false)
missing_one [] order h = absurd (omega arith)
missing_one (d ∷ ds) order h = elim (Bool-cases (includes d order)) [
  | inr e ↦ (d, rw (str_eq_refl d) refl, e)
  | inl e ↦
      let (c, there, gone) = missing_one ds order (omega (arith, rw e at h)) in
      (c, or_true (str_eq c d) there, gone)
]

-- A step that is left out misses a dependency, which is a step that is left out too.
left_out :
    (steps : List PipelineStep) (a : String) (ds : List String)
    → IsKeyed (dependency_table steps)
    → get a (dependency_table steps) ≡ some ds
    → (1 ≤ times a (finished_walk steps).order)
      ⊎ ((d : String) × (includes d ds ≡ true)
          × (is_some (get d (dependency_table steps)) ≡ true)
          × (times d (finished_walk steps).order ≡ 0))
unfolding finished_walk first_walk
left_out steps a ds h there =
    let p : Plan = plan_steps (ids_of steps) steps empty_plan in
    let w : Walk = first_walk steps p in
    elim (walk-held (dependency_table steps) p.dependents (mirrored_plan steps h) (fuel_of w)
      w.waiting w.queue w.order (first_walk-Inv steps h) (finished_walk-queue steps) a ds there) [
        | inl stands ↦ inl stands
        | inr more ↦
            let (d, needed, gone) = missing_one ds (finished_walk steps).order more in
            inr (
              d,
              needed,
              step_listed (ids_of steps) d steps
                  (dependency_step (ids_of steps) a d ds steps there needed),
              absent_times d (finished_walk steps).order gone,
            )
      ]

all_ordered :
    (steps : List PipelineStep) (rank : String → ℕ)
    → IsKeyed (dependency_table steps)
    → ((a d : String) → includes d (listed a (dependency_table steps)) ≡ true → rank d < rank a)
    → (n : ℕ) (a : String) (ds : List String) → rank a ≤ n
    → get a (dependency_table steps) ≡ some ds
    → 1 ≤ times a (finished_walk steps).order
all_ordered steps rank h falls zero a ds small there = elim (left_out steps a ds h there) [
  | inl stands ↦ stands
  | inr (d, needed, is_step, gone) ↦
      let lower : rank d < rank a =
        falls a d (subst (λ o. includes d (get_or o []) ≡ true) (sym there) needed) in
      absurd (omega arith)
]
all_ordered steps rank h falls (suc n) a ds small there = elim (left_out steps a ds h there) [
  | inl stands ↦ stands
  | inr (d, needed, is_step, gone) ↦
      let lower : rank d < rank a =
        falls a d (subst (λ o. includes d (get_or o []) ≡ true) (sym there) needed) in
      elim (Option-cases (get d (dependency_table steps))) [
        | inl e ↦ absurd (cc)
        | inr (es, e) ↦ absurd (
            omega
              (arith, gone, all_ordered steps rank h falls n d es (omega (arith, lower, small)) e))
      ]
]

-- When no two steps share an id and some ranking of the ids falls along every dependency, so that
-- there is no cycle, the loop ends with every step in its order.
pub finished_walk_complete :
    (steps : List PipelineStep) (rank : String → ℕ) (a : String) (ds : List String)
    → IsKeyed (dependency_table steps)
    → ((b d : String) → includes d (listed b (dependency_table steps)) ≡ true → rank d < rank b)
    → get a (dependency_table steps) ≡ some ds
    → times a (finished_walk steps).order ≡ 1
finished_walk_complete steps rank a ds h falls there = omega (
  arith,
  all_ordered steps rank h falls (rank a) a ds (omega arith) there,
  (finished_walk-Follows steps h).1 a,
)
