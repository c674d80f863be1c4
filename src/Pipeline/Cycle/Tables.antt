-- ===== src/Pipeline/Cycle/Tables.antt =====
-- The two ways of looking a step up agree when no two steps share an id, and lists of ids compared
-- by how often each id stands in them.
use asterim.Prelude.{
  ◌≡◌, refl, sym, ap, ◌∙◌, subst, arith, inl, inr, String, Bool, true, false, not, none, some, List,
  [], ◌∷◌, str_eq, str_eq_refl, str_eq_iff, str_eq-cases, str_eq_comm, Bool-cases, Option-cases,
  keep, includes, unique, get, IsKeyed,
}
use asterim.Pipeline.Graph.{PipelineStep, known_dependencies, ids_of}
use asterim.Pipeline.Prepared.{table_of, listed}
use asterim.Pipeline.Complete.{kept_text, unique_text}
use asterim.Pipeline.Cycle.{by_id, has_step, depends_of}
use asterim.Pipeline.Cycle.Found.{or_right, Edge}

pub by_id-id :
    (a : String) (ss : List PipelineStep) (s : PipelineStep) → by_id a ss ≡ some s → s.id ≡ a
unfolding by_id
by_id-id a [] s h = absurd (cc)
by_id-id a (t ∷ ss) s h = elim (Option-cases (by_id a ss)) [
  | inr (u, e) ↦ by_id-id a ss s (ground arith)
  | inl e ↦ ground (arith, str_eq_iff t.id a)
]

pub table-by_id :
    (ids : List String) (a : String) (ss : List PipelineStep) (s : PipelineStep)
    → IsKeyed (table_of ids ss)
    → by_id a ss ≡ some s
    → get a (table_of ids ss) ≡ some (known_dependencies ids s)
unfolding by_id get
table-by_id ids a [] s keyed h = absurd (cc)
table-by_id ids a (t ∷ ss) s (fresh, keyed) h = elim (Option-cases (by_id a ss)) [
  | inr (u, e) ↦
      let later : get a (table_of ids ss) ≡ some (known_dependencies ids s) =
        table-by_id ids a ss s keyed (ground arith) in
      elim (str_eq-cases t.id a) [
        | inr other ↦ rw other later
        | inl same ↦
            let gone : get a (table_of ids ss) ≡ none =
              subst (λ k. get k (table_of ids ss) ≡ none) same fresh in
            absurd (cc)
      ]
  | inl e ↦ elim (str_eq-cases t.id a) [
    | inr other ↦ absurd (ground arith)
    | inl same ↦
        let hit : str_eq t.id a ≡ true = (str_eq_iff t.id a).1 same in
        let one_step : t ≡ s = ground arith in
        rw hit (ap (λ u. some (known_dependencies ids u)) one_step)
  ]
]

pub table_absent :
    (ids : List String) (a : String) (ss : List PipelineStep)
    → by_id a ss ≡ none
    → get a (table_of ids ss) ≡ none
unfolding by_id get
table_absent ids a [] h = refl
table_absent ids a (t ∷ ss) h = elim (Option-cases (by_id a ss)) [
  | inr (u, e) ↦ absurd (ground arith)
  | inl e ↦ elim (Bool-cases (str_eq t.id a)) [
    | inl here ↦ absurd (ground arith)
    | inr other ↦ rw other (table_absent ids a ss e)
  ]
]

pub has_step-includes :
    (d : String) (ss : List PipelineStep) → has_step d ss ≡ includes d (ids_of ss)
unfolding by_id
has_step-includes d [] = refl
has_step-includes d (s ∷ ss) =
    let ih = has_step-includes d ss in
    elim (Option-cases (by_id d ss)) [
      | inr (u, e) ↦
          let later : includes d (ids_of ss) ≡ true = ground arith in
          rw (e, later) (sym (or_right (str_eq d s.id) refl))
      | inl e ↦
          let gone : includes d (ids_of ss) ≡ false = ground arith in
          rw (e, gone, str_eq_comm d s.id) (ground arith)
    ]

pub kept_in :
    (p : String → Bool) (d : String) (xs : List String)
    → includes d xs ≡ true
    → p d ≡ true
    → includes d (keep p xs) ≡ true
kept_in p d [] h good = absurd (cc)
kept_in p d (x ∷ xs) h good = elim (str_eq-cases d x) [
  | inl same ↦ rw (subst (λ y. p y ≡ true) same good, same, str_eq_refl x) refl
  | inr other ↦
      let rest : includes d (keep p xs) ≡ true = kept_in p d xs (rw other at h) good in
      elim (Bool-cases (p x)) [ inl e ↦ rw e (or_right (str_eq d x) rest) | inr e ↦ rw e rest ]
]

unique_in : (d : String) (xs : List String) → includes d xs ≡ true → includes d (unique xs) ≡ true
unfolding unique
unique_in d [] h = absurd (cc)
unique_in d (x ∷ xs) h = elim (str_eq-cases d x) [
  | inl same ↦ rw (same, str_eq_refl x) refl
  | inr other ↦ or_right (str_eq d x) (
      kept_in (λ y. not (str_eq y x)) d (unique xs) (unique_in d xs (rw other at h)) (ap not other))
]

module _ (steps : List PipelineStep) (keyed : IsKeyed (table_of (ids_of steps) steps)) where
  -- A known dependency of the plan is an edge of the search, and the other way round.
  pub Edge-listed :
      (a d : String) → Edge steps a d → includes d (listed a (table_of (ids_of steps) steps)) ≡ true
  unfolding known_dependencies
  Edge-listed a d (needed, is_step) = elim (Option-cases (by_id a steps)) [
    | inl e ↦ absurd (let b : includes d (depends_of none) ≡ true = rw e at needed in cc)
    | inr (s, e) ↦ rw (table-by_id (ids_of steps) a steps s keyed e) (
        unique_in d (keep (λ x. includes x (ids_of steps)) s.depends_on) (
          kept_in (λ x. includes x (ids_of steps)) d s.depends_on (rw e at needed)
            (sym (has_step-includes d steps) ∙ is_step)))
  ]

  pub listed-Edge :
      (a d : String) → includes d (listed a (table_of (ids_of steps) steps)) ≡ true → Edge steps a d
  unfolding known_dependencies
  listed-Edge a d there = elim (Option-cases (by_id a steps)) [
    | inl e ↦
        absurd
          (let b : includes d [] ≡ true = rw (table_absent (ids_of steps) a steps e) at there in cc)
    | inr (s, e) ↦
        let (needed, known) =
          kept_text (λ x. includes x (ids_of steps)) d s.depends_on
            (unique_text d (keep (λ x. includes x (ids_of steps)) s.depends_on)
              (rw (table-by_id (ids_of steps) a steps s keyed e) at there)) in
        (rw e needed, has_step-includes d steps ∙ known)
  ]

  pub step_entry :
      (a : String)
      → has_step a steps ≡ true
      → (ds : List String) × (get a (table_of (ids_of steps) steps) ≡ some ds)
  step_entry a h = elim (Option-cases (by_id a steps)) [
    | inl e ↦ absurd (cc)
    | inr (s, e) ↦ (_, table-by_id (ids_of steps) a steps s keyed e)
  ]
