-- ===== src/Pipeline/Cycle/Counted.antt =====
-- The order that is returned has each step exactly once, and nothing else.
use asterim.Prelude.{
  ℕ, zero, suc, ◌+◌, ◌≤◌, ◌≡◌, refl, sym, ap, ◌∙◌, subst, arith, ◌⊎◌, inl, inr, String, Bool, true,
  false, not, ◌++◌, none, some, List, [], ◌∷◌, if◌then◌else◌, ◌==◌, str_eq, str_eq_refl,
  str_eq-cases, str_eq_iff, str_eq_comm, Bool-cases, Option-cases, get_or, is_some, length, keep,
  includes, unique, Map, get, IsKeyed, one,
}
use asterim.Pipeline.Graph.{
  PipelineStep, Left, Plan, plan_steps, release_dependents, take_next, walk, first_queue,
  first_walk, Walk, fuel_of, finished_walk, topological_pipeline_order, ids_of,
}
use asterim.Pipeline.Prepared.{times, times-append, table_of, listed}
use asterim.Pipeline.Fuel.{walk_at}
use asterim.Pipeline.Release.{release-times}
use asterim.Pipeline.Ordered.{dependency_table, empty_plan, mirrored_plan, finished_walk-Follows}
use asterim.Pipeline.Cycle.{by_id, has_step}
use asterim.Pipeline.Cycle.Tables.{has_step-includes, table_absent}

-- The list without the first place of `x`.
take_out : String → List String → List String
take_out x [] = []
take_out x (y ∷ ys) = let rest = take_out x ys in if str_eq y x then ys else y ∷ rest

length-take_out :
    (x : String) (ys : List String) → 1 ≤ times x ys → length ys ≡ suc (length (take_out x ys))
unfolding take_out
length-take_out x [] h = absurd (omega arith)
length-take_out x (y ∷ ys) h = elim (Bool-cases (str_eq y x)) [
  | inl e ↦ rw e refl
  | inr e ↦ rw e (ap suc (length-take_out x ys (omega (arith, rw e at h))))
]

times-take_out :
    (a x : String) (ys : List String)
    → 1 ≤ times x ys
    → one (str_eq x a) + times a (take_out x ys) ≡ times a ys
unfolding take_out
times-take_out a x [] h = absurd (omega arith)
times-take_out a x (y ∷ ys) h = elim (str_eq-cases y x) [
  | inl same ↦ rw (same, str_eq_refl x) refl
  | inr other ↦ rw other (omega (arith, times-take_out a x ys (omega (arith, rw other at h))))
]

-- A list in which nothing stands more often than in another is no longer than the other.
pub length-le_of_times :
    (xs ys : List String) → ((a : String) → times a xs ≤ times a ys) → length xs ≤ length ys
length-le_of_times [] ys h = omega arith
length-le_of_times (x ∷ xs) ys h =
    let there : 1 ≤ times x ys = omega (arith, h x, ap one (str_eq_refl x)) in
    omega (
      arith,
      length-take_out x ys there,
      length-le_of_times xs (take_out x ys) (λ a. omega (arith, times-take_out a x ys there, h a)),
    )

times-keep_self : (x : String) (xs : List String) → times x (keep (λ y. not (str_eq y x)) xs) ≡ 0
times-keep_self x [] = refl
times-keep_self x (y ∷ xs) = elim (Bool-cases (str_eq y x)) [
  | inl e ↦ rw e (times-keep_self x xs)
  | inr e ↦ rw (e, e) (omega (arith, times-keep_self x xs))
]

times-keep_other :
    (a x : String) (xs : List String)
    → str_eq a x ≡ false
    → times a (keep (λ y. not (str_eq y x)) xs) ≡ times a xs
times-keep_other a x [] h = refl
times-keep_other a x (y ∷ xs) h = elim (str_eq-cases y x) [
  | inl same ↦
      rw (same, str_eq_refl x, str_eq_comm x a, h) (omega (arith, times-keep_other a x xs h))
  | inr other ↦ rw other (omega (arith, times-keep_other a x xs h))
]

-- A text stands once or not at all in `[...new Set(xs)]`.
pub times-unique : (a : String) (xs : List String) → times a (unique xs) ≡ one (includes a xs)
unfolding unique
times-unique a [] = refl
times-unique a (x ∷ xs) = elim (str_eq-cases a x) [
  | inl same ↦
      subst (λ k. times k (unique (x ∷ xs)) ≡ one (includes k (x ∷ xs))) (sym same)
        (rw (str_eq_refl x) (omega (arith, times-keep_self x (unique xs))))
  | inr other ↦
      rw (str_eq_comm x a, other)
        (omega (arith, times-keep_other a x (unique xs) other, times-unique a xs))
]

module _ (table dependents : Map (List String))
    (mirrored : (a x : String) → times a (listed x dependents) ≡ times x (listed a table)) where
  -- What is no step comes neither to the queue nor to the order.
  walk-stranger :
      (n : ℕ) (a : String) (m : Map Left) (queue order : List String)
      → get a table ≡ none
      → times a queue + times a order ≡ 0
      → times a (walk n dependents (walk_at m queue order)).order ≡ 0
  unfolding walk take_next
  walk-stranger zero a m queue order stranger h = omega arith
  walk-stranger (suc n) a m [] order stranger h = omega arith
  walk-stranger (suc n) a m (x ∷ rest) order stranger h =
      let pushed : List String = (release_dependents (listed x dependents) m).1 in
      walk-stranger n a (release_dependents (listed x dependents) m).0 (rest ++ pushed)
        (order ++ x ∷ []) stranger
        (omega (
          arith,
          h,
          times-append a rest pushed,
          times-append a order (x ∷ []),
          release-times a (listed x dependents) m,
          mirrored a x,
          ap (λ o. times x (get_or o [])) stranger,
        ))

first_queue-stranger :
    (ids : List String) (a : String) (m : Map Left) (ss : List PipelineStep)
    → get a (table_of ids ss) ≡ none
    → times a (first_queue m ss) ≡ 0
unfolding first_queue get
first_queue-stranger ids a m [] h = refl
first_queue-stranger ids a m (s ∷ ss) h = elim (Bool-cases (str_eq s.id a)) [
  | inl here ↦ absurd (ground arith)
  | inr other ↦ ground (arith, first_queue-stranger ids a m ss (rw other at h))
]

finished_walk-stranger :
    (steps : List PipelineStep) (a : String)
    → IsKeyed (dependency_table steps)
    → get a (dependency_table steps) ≡ none
    → times a (finished_walk steps).order ≡ 0
unfolding finished_walk first_walk
finished_walk-stranger steps a h stranger =
    let p : Plan = plan_steps (ids_of steps) steps empty_plan in
    let w : Walk = first_walk steps p in
    walk-stranger (dependency_table steps) p.dependents (mirrored_plan steps h) (fuel_of w) a
      w.waiting w.queue w.order stranger
      (omega (arith, first_queue-stranger (ids_of steps) a p.outstanding steps stranger))

-- A step stands at most once in the order, and nothing else stands in it.
pub finished_walk-times :
    (steps : List PipelineStep) (a : String)
    → IsKeyed (dependency_table steps)
    → times a (finished_walk steps).order ≤ times a (unique (ids_of steps))
finished_walk-times steps a h = elim (Option-cases (by_id a steps)) [
  | inl e ↦ omega (arith, finished_walk-stranger steps a h (table_absent (ids_of steps) a steps e))
  | inr (s, e) ↦
      let known : includes a (ids_of steps) ≡ true =
        sym (has_step-includes a steps) ∙ ap (λ o. is_some o) e in
      omega
        (arith, (finished_walk-Follows steps h).1 a, times-unique a (ids_of steps), ap one known)
]

chosen : (b : Bool) (x y : List String) → (if b then some x else none) ≡ some y → b ≡ true
chosen true x y e = refl
chosen false x y e = absurd (cc)

same_length : (a b : ℕ) → (a == b) ≡ true → a ≡ b
same_length a b h = ground arith

-- An order that is returned has every step.
pub topological_pipeline_order-full :
    (steps : List PipelineStep) (order : List String) (a : String)
    → IsKeyed (dependency_table steps)
    → topological_pipeline_order steps ≡ some order
    → has_step a steps ≡ true
    → 1 ≤ times a (finished_walk steps).order
unfolding topological_pipeline_order
topological_pipeline_order-full steps order a h found is_step =
    let walked : List String = (finished_walk steps).order in
    let lengths : length walked ≡ length (unique (ids_of steps)) =
      same_length _ _ (chosen _ walked order found) in
    let known : times a (unique (ids_of steps)) ≡ 1 =
      times-unique a (ids_of steps) ∙ ap one (sym (has_step-includes a steps) ∙ is_step) in
    elim (some_or_none (times a walked)) [
      | inl there ↦ there
      | inr gone ↦ absurd (
          omega (
            arith,
            lengths,
            length-le_of_times (a ∷ walked) (unique (ids_of steps)) (λ b. elim (str_eq-cases a b) [
              | inl same ↦
                  subst (λ c. times c (a ∷ walked) ≤ times c (unique (ids_of steps))) same
                    (omega (arith, gone, known, ap one (str_eq_refl a)))
              | inr other ↦ omega (arith, ap one other, finished_walk-times steps b h)
            ]),
          ))
    ]
  where
    some_or_none : (n : ℕ) → (1 ≤ n) ⊎ (n ≡ 0)
    some_or_none zero = inr refl
    some_or_none (suc n) = inl (omega arith)

-- When every step comes to the order, it is returned.
pub topological_pipeline_order-some :
    (steps : List PipelineStep)
    → IsKeyed (dependency_table steps)
    → ((a : String) → has_step a steps ≡ true → 1 ≤ times a (finished_walk steps).order)
    → topological_pipeline_order steps ≡ some (finished_walk steps).order
unfolding topological_pipeline_order
topological_pipeline_order-some steps h full =
    let walked : List String = (finished_walk steps).order in
    let ids : List String = unique (ids_of steps) in
    let long : length ids ≤ length walked = length-le_of_times ids walked (λ a.
      elim (Bool-cases (includes a (ids_of steps))) [
        | inl known ↦ omega (
          arith,
          times-unique a (ids_of steps),
          ap one known,
          full a (has_step-includes a steps ∙ known),
        )
        | inr unknown ↦ omega (arith, times-unique a (ids_of steps), ap one unknown)
      ]) in
    let short : length walked ≤ length ids =
      length-le_of_times walked ids (λ a. finished_walk-times steps a h) in
    rw (same (length walked) (length ids) (omega (arith, long, short))) refl
  where
    same : (m n : ℕ) → m ≡ n → (m == n) ≡ true
    same m n e = ground arith

-- An order that is returned is that of the finished walk.
pub order_walked :
    (steps : List PipelineStep) (order : List String)
    → topological_pipeline_order steps ≡ some order
    → (finished_walk steps).order ≡ order
unfolding topological_pipeline_order
order_walked steps order found = chosen _ (finished_walk steps).order order found
  where
    chosen : (b : Bool) (x y : List String) → (if b then some x else none) ≡ some y → x ≡ y
    chosen true x y e = ground arith
    chosen false x y e = absurd (cc)

pub times-includes : (a : String) (xs : List String) → 1 ≤ times a xs → includes a xs ≡ true
times-includes a [] h = absurd (omega arith)
times-includes a (x ∷ xs) h = elim (str_eq-cases a x) [
  | inl same ↦ rw ((str_eq_iff a x).1 same) refl
  | inr other ↦ rw other (times-includes a xs (omega (arith, h, ap one (str_eq_comm x a ∙ other))))
]
