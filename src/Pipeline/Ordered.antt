-- ===== src/Pipeline/Ordered.antt =====
-- `topologicalPipelineOrder` puts every step after its dependencies.
use asterim.Prelude.{
  ℕ, zero, suc, ◌+◌, ◌≤◌, ◌≡◌, refl, sym, ap, ◌∙◌, subst, arith, ◌⊎◌, inl, inr, String, Bool, true,
  false, none, some, List, [], ◌∷◌, if◌then◌else◌, str_eq, str_eq_refl, str_eq-cases, Bool-cases,
  length, is_some, Map, get, IsKeyed, one,
}
use asterim.Pipeline.Graph.{
  PipelineStep, Left, pos, is_zero, found_zero, Plan, plan_steps, first_queue, first_walk, Walk,
  fuel_of, finished_walk, topological_pipeline_order, ids_of,
}
use asterim.Pipeline.Prepared.{
  times, table_of, listed, counted_or, plan_steps-outstanding, plan_steps-times,
}
use asterim.Pipeline.Release.{missing}
use asterim.Pipeline.Turn.{Follows, Inv, inv, walk-Follows}

one-le : (b : Bool) → one b ≤ 1
one-le true = omega arith
one-le false = omega arith

missing_nil : (ds : List String) → missing ds [] ≡ length ds
missing_nil [] = refl
missing_nil (d ∷ ds) = omega (arith, missing_nil ds)

first_queue-zero :
    (a : String) (m : Map Left) (ss : List PipelineStep)
    → 1 ≤ times a (first_queue m ss)
    → found_zero (get a m) ≡ true
unfolding first_queue
first_queue-zero a m [] h = absurd (omega arith)
first_queue-zero a m (s ∷ ss) h = elim (Bool-cases (found_zero (get s.id m))) [
  | inr e ↦ first_queue-zero a m ss (rw e at h)
  | inl e ↦ elim (str_eq-cases s.id a) [
    | inl same ↦ subst (λ k. found_zero (get k m) ≡ true) same e
    | inr other ↦ first_queue-zero a m ss (omega (arith, rw (e, other) at h))
  ]
]

first_queue-once :
    (ids : List String) (a : String) (m : Map Left) (ss : List PipelineStep)
    → IsKeyed (table_of ids ss)
    → times a (first_queue m ss) ≤ one (is_some (get a (table_of ids ss)))
unfolding first_queue get
first_queue-once ids a m [] h = omega arith
first_queue-once ids a m (s ∷ ss) (fresh, h) =
    let before = first_queue-once ids a m ss h in
    elim (str_eq-cases s.id a) [
      | inl same ↦
          let gone : one (is_some (get a (table_of ids ss))) ≡ 0 =
            ap (λ o. one (is_some o)) (subst (λ k. get k (table_of ids ss) ≡ none) same fresh) in
          let hit : str_eq s.id a ≡ true = rw same (str_eq_refl a) in
          rw hit (elim (Bool-cases (found_zero (get s.id m))) [
            | inl e ↦ rw (e, hit) (omega (arith, before, gone))
            | inr e ↦ rw e (omega (arith, before, gone))
          ])
      | inr other ↦ rw other (elim (Bool-cases (found_zero (get s.id m))) [
        | inl e ↦ rw (e, other) (omega (arith, before))
        | inr e ↦ rw e before
      ])
    ]

abbrev pub empty_plan : Plan
empty_plan = record { outstanding = []; dependents = [] }

-- The distinct dependencies of each step that are steps themselves.
abbrev pub dependency_table : List PipelineStep → Map (List String)
dependency_table steps = table_of (ids_of steps) steps

pub mirrored_plan :
    (steps : List PipelineStep)
    → IsKeyed (dependency_table steps)
    → (a x : String)
    → times a (listed x (plan_steps (ids_of steps) steps empty_plan).dependents)
      ≡ times x (listed a (dependency_table steps))
unfolding get
mirrored_plan steps h a x = omega (arith, plan_steps-times (ids_of steps) a x steps empty_plan h)

first_queue-has :
    (ids : List String) (a : String) (ds : List String) (m : Map Left) (ss : List PipelineStep)
    → get a (table_of ids ss) ≡ some ds
    → found_zero (get a m) ≡ true
    → 1 ≤ times a (first_queue m ss)
unfolding first_queue get
first_queue-has ids a ds m [] h z = absurd (cc)
first_queue-has ids a ds m (s ∷ ss) h z = elim (str_eq-cases s.id a) [
  | inl same ↦
      let hit : str_eq s.id a ≡ true = rw same (str_eq_refl a) in
      let ready : found_zero (get s.id m) ≡ true =
        subst (λ k. found_zero (get k m) ≡ true) (sym same) z in
      rw (ready, hit) (omega arith)
  | inr other ↦
      let before = first_queue-has ids a ds m ss (rw other at h) z in
      elim (Bool-cases (found_zero (get s.id m))) [
        | inl e ↦ rw (e, other) (omega (arith, before))
        | inr e ↦ rw e before
      ]
]

some_or_none : (n : ℕ) → (1 ≤ n) ⊎ (n ≡ 0)
some_or_none zero = inr refl
some_or_none (suc n) = inl (omega arith)

pub first_walk-Inv :
    (steps : List PipelineStep) (h : IsKeyed (dependency_table steps))
    → Inv
        (dependency_table steps)
        (plan_steps (ids_of steps) steps empty_plan).dependents
        (mirrored_plan steps h)
        (plan_steps (ids_of steps) steps empty_plan).outstanding
        (first_queue (plan_steps (ids_of steps) steps empty_plan).outstanding steps)
        []
unfolding get
first_walk-Inv steps h = inv planned ready once tt held
  where
    table : Map (List String)
    table = dependency_table steps

    m : Map Left
    m = (plan_steps (ids_of steps) steps empty_plan).outstanding

    planned :
        (a : String) (ds : List String)
        → get a table ≡ some ds
        → get a m ≡ some (pos (missing ds []))
    planned a ds e =
        plan_steps-outstanding (ids_of steps) a steps empty_plan h
        ∙ (ap (λ o. counted_or o none) e ∙ ap (λ n. some (pos n)) (sym (missing_nil ds)))

    zero_at : (n : ℕ) → is_zero (pos n) ≡ true → n ≡ 0
    zero_at zero z = refl
    zero_at (suc n) z = absurd (cc)

    ready :
        (a : String) (ds : List String)
        → get a table ≡ some ds
        → 1 ≤ times a (first_queue m steps) + 0
        → missing ds [] ≡ 0
    ready a ds e there = zero_at (missing ds []) (
        subst (λ o. found_zero o ≡ true) (planned a ds e)
          (first_queue-zero a m steps (omega (arith, there))))

    held :
        (a : String) (ds : List String)
        → get a table ≡ some ds
        → (1 ≤ times a (first_queue m steps) + 0) ⊎ (1 ≤ missing ds [])
    held a ds e = elim (some_or_none (missing ds [])) [
      | inl more ↦ inr more
      | inr z ↦
          let zero_now : get a m ≡ some (pos 0) = planned a ds e ∙ ap (λ n. some (pos n)) z in
          inl
            (omega (arith, first_queue-has (ids_of steps) a ds m steps e (ap found_zero zero_now)))
    ]

    once : (a : String) → times a (first_queue m steps) + 0 ≤ 1
    once a =
        omega (arith, first_queue-once (ids_of steps) a m steps h, one-le (is_some (get a table)))

pub finished_walk-Follows :
    (steps : List PipelineStep)
    → IsKeyed (dependency_table steps)
    → Follows (dependency_table steps) [] (finished_walk steps).order
      × ((a : String) → times a (finished_walk steps).order ≤ 1)
unfolding finished_walk first_walk
finished_walk-Follows steps h =
    let p : Plan = plan_steps (ids_of steps) steps empty_plan in
    let w : Walk = first_walk steps p in
    walk-Follows (dependency_table steps) p.dependents (mirrored_plan steps h) (fuel_of w) w.waiting
      w.queue w.order (first_walk-Inv steps h)

-- When no two steps share an id, every order that is returned has each step after all its dependencies,
-- and no step twice.
pub topological_pipeline_order-Follows :
    (steps : List PipelineStep) (order : List String)
    → IsKeyed (dependency_table steps)
    → topological_pipeline_order steps ≡ some order
    → Follows (dependency_table steps) [] order × ((a : String) → times a order ≤ 1)
unfolding topological_pipeline_order
topological_pipeline_order-Follows steps order h found =
    subst (λ xs. Follows (dependency_table steps) [] xs × ((a : String) → times a xs ≤ 1))
      (chosen _ (finished_walk steps).order order found) (finished_walk-Follows steps h)
  where
    chosen : (b : Bool) (x y : List String) → (if b then some x else none) ≡ some y → x ≡ y
    chosen true x y e = ground arith
    chosen false x y e = absurd (cc)
