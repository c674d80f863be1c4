-- ===== src/Engine/Ordered.antt =====
-- The steps of a run, in the order that `topologicalPipelineOrder` returns: each comes after those
-- that it depends on, and all of the definition's steps are among them.
use asterim.Prelude.{
  ◌+◌, ◌≤◌, ◌≡◌, refl, sym, ap, ◌∙◌, subst, arith, inl, inr, String, Bool, true, false, ◌||◌, none,
  some, List, [], ◌∷◌, ◌++◌, str_eq, str_eq_refl, str_eq_iff, str_eq-cases, Bool-cases,
  Option-cases, is_some, all, includes, All, get, IsKeyed, one,
}
use asterim.Pipeline.Graph.{PipelineStep, ids_of}
use asterim.Pipeline.Prepared.{times, times-append, table_of, listed}
use asterim.Pipeline.Turn.{Follows}
use asterim.Pipeline.Ordered.{dependency_table}
use asterim.Pipeline.Cycle.{by_id, depends_of}
use asterim.Pipeline.Cycle.Tables.{table-by_id, has_step-includes, Edge-listed}
use asterim.Pipeline.Parser.Checked.{HasSteps}
use asterim.Engine.Loop.{find_steps}
use asterim.Engine.Dispatch.{find_step}
use asterim.Engine.Ready.{Staged}

-- The two ways of looking a step up agree when no two steps share an id.
find_step-by_id :
    (ids : List String) (a : String) (ss : List PipelineStep)
    → IsKeyed (table_of ids ss)
    → find_step a ss ≡ by_id a ss
unfolding find_step by_id
find_step-by_id ids a [] keyed = refl
find_step-by_id ids a (s ∷ ss) (fresh, keyed) = elim (Option-cases (by_id a ss)) [
  | inl e ↦ rw e (ground (arith, find_step-by_id ids a ss keyed, e))
  | inr (u, e) ↦ elim (str_eq-cases s.id a) [
    | inr other ↦ rw (e, other) (find_step-by_id ids a ss keyed ∙ e)
    | inl same ↦
        let gone : get a (table_of ids ss) ≡ none =
          subst (λ k. get k (table_of ids ss) ≡ none) same fresh in
        let there = table-by_id ids a ss u keyed e in absurd (cc)
  ]
]

pub find_step-id :
    (a : String) (ss : List PipelineStep) (s : PipelineStep) → find_step a ss ≡ some s → s.id ≡ a
unfolding find_step
find_step-id a [] s h = absurd (cc)
find_step-id a (t ∷ ss) s h = elim (str_eq-cases t.id a) [
  | inl here ↦
      let e : some t ≡ some s = rw ((str_eq_iff t.id a).1 here) at h in ground (arith, e, here)
  | inr other ↦ find_step-id a ss s (rw other at h)
]

find_step-All :
    (P : PipelineStep → Type 0) (a : String) (ss : List PipelineStep) (s : PipelineStep)
    → All P ss
    → find_step a ss ≡ some s
    → P s
unfolding find_step
find_step-All P a [] s h e = absurd (cc)
find_step-All P a (t ∷ ss) s (first, h) e = elim (Bool-cases (str_eq t.id a)) [
  | inl here ↦
      let same : some t ≡ some s = rw here at e in
      let one_step : t ≡ s = ground arith in subst P one_step first
  | inr other ↦ find_step-All P a ss s h (rw other at e)
]

includes-times : (a : String) (xs : List String) → includes a xs ≡ true → 1 ≤ times a xs
includes-times a [] h = absurd (cc)
includes-times a (x ∷ xs) h = elim (str_eq-cases a x) [
  | inl same ↦ omega (arith, ap one ((str_eq_iff x a).1 (sym same)))
  | inr other ↦ omega (arith, includes-times a xs (rw other at h))
]

all_known :
    (ids before listing ds : List String) (a : String)
    → ((d : String) → includes d ds ≡ true → includes d listing ≡ true)
    → all (λ d. includes d before) listing ≡ true
    → all (λ d. includes d before) ds ≡ true
all_known ids before listing ds a sub h = each ds sub
  where
    member :
        (d : String) (xs : List String)
        → all (λ x. includes x before) xs ≡ true
        → includes d xs ≡ true
        → includes d before ≡ true
    member d [] k there = absurd (cc)
    member d (x ∷ xs) k there = elim (Bool-cases (includes x before)) [
      | inr e ↦ absurd (let b : false ≡ true = rw e at k in cc)
      | inl e ↦ elim (str_eq-cases d x) [
        | inl same ↦ subst (λ y. includes y before ≡ true) (sym same) e
        | inr other ↦ member d xs (rw e at k) (rw other at there)
      ]
    ]

    each :
        (es : List String)
        → ((d : String) → includes d es ≡ true → includes d listing ≡ true)
        → all (λ d. includes d before) es ≡ true
    each [] f = refl
    each (e ∷ es) f =
        rw (member e listing h (f e (rw (str_eq_refl e) refl)))
          (each es (λ d there. f d (later (str_eq d e) there)))
      where
        later : (b : Bool) {c : Bool} → c ≡ true → b || c ≡ true
        later true t = refl
        later false t = t

module _ (steps : List PipelineStep) (keyed : IsKeyed (dependency_table steps))
    (linked : All (HasSteps (ids_of steps)) steps) where
  dependencies_listed :
      (a : String) (s : PipelineStep)
      → find_step a steps ≡ some s
      → (d : String) → includes d s.depends_on ≡ true
      → includes d (listed a (dependency_table steps)) ≡ true
  dependencies_listed a s e d there = Edge-listed steps keyed a d (
    ap (λ o. includes d (depends_of o)) (sym (find_step-by_id (ids_of steps) a steps keyed) ∙ e)
        ∙ there,
    has_step-includes d steps
        ∙ known s.depends_on (find_step-All (HasSteps (ids_of steps)) a steps s linked e) there,
  )
    where
      known :
          (ds : List String)
          → All (λ x. (str_eq x s.id ≡ false) × (includes x (ids_of steps) ≡ true)) ds
          → includes d ds ≡ true
          → includes d (ids_of steps) ≡ true
      known [] h k = absurd (cc)
      known (x ∷ ds) ((apart, is_step), h) k = elim (str_eq-cases d x) [
        | inl same ↦ subst (λ y. includes y (ids_of steps) ≡ true) (sym same) is_step
        | inr other ↦ known ds h (rw other at k)
      ]

  -- Looking the steps of an order up, when the order has no strangers and none twice.
  pub find_steps-Staged :
      (before xs : List String)
      → Follows (dependency_table steps) before xs
      → ((a : String) → times a before + times a xs ≤ 1)
      → ((a : String) → 1 ≤ times a xs → is_some (find_step a steps) ≡ true)
      → Staged before (find_steps xs steps)
  unfolding find_steps
  find_steps-Staged before [] h once real = tt
  find_steps-Staged before (a ∷ xs) (first, h) once real = elim (Option-cases (find_step a steps)) [
    | inl e ↦ absurd (
        let b : true ≡ is_some (find_step a steps) =
          sym (real a (omega (arith, ap one (str_eq_refl a)))) in
        cc)
    | inr (s, e) ↦
        let same : s.id ≡ a = find_step-id a steps s e in
        rw e (
          all_known (ids_of steps) before (listed a (dependency_table steps)) s.depends_on a
              (dependencies_listed a s e) first,
          elim (Bool-cases (includes s.id before)) [
            | inr absent ↦ absent
            | inl there ↦
                let twice : includes a before ≡ true =
                  subst (λ k. includes k before ≡ true) same there in
                absurd
                  (omega (arith, includes-times a before twice, once a, ap one (str_eq_refl a)))
          ],
          subst (λ k. Staged (before ++ k ∷ []) (find_steps xs steps)) (sym same)
              (find_steps-Staged (before ++ a ∷ []) xs h
                (λ b. omega (arith, once b, times-append b before (a ∷ [])))
                (λ b there. real b (omega (arith, there)))),
        )
  ]
