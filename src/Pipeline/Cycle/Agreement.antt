-- ===== src/Pipeline/Cycle/Agreement.antt =====
-- `findPipelineCycle` and `topologicalPipelineOrder` agree about which pipelines have an order.
use asterim.Prelude.{
  ◌≡◌, ◌↔◌, refl, sym, ap, ◌∙◌, subst, arith, ◌⊎◌, inl, inr, String, true, false, ◌++◌, none, some,
  List, [], ◌∷◌, str_eq, str_eq_refl, str_eq_iff, str_eq_comm, Bool-cases, Option-cases, is_some,
  all, any, includes, get, IsKeyed, All,
}
use asterim.Pipeline.Graph.{PipelineStep, finished_walk, topological_pipeline_order, ids_of}
use asterim.Pipeline.Prepared.{listed}
use asterim.Pipeline.Turn.{Follows}
use asterim.Pipeline.Complete.{finished_walk_complete, absent_times}
use asterim.Pipeline.Ordered.{dependency_table, finished_walk-Follows}
use asterim.Pipeline.Cycle.{
  by_id, has_step, Outcome, closed, cycle, out_of_fuel, search_roots, cycle_fuel, path_of,
  find_pipeline_cycle,
}
use asterim.Pipeline.Cycle.Fuel.{weight-fuel}
use asterim.Pipeline.Cycle.Found.{or_right, or_either, IsCycle}
use asterim.Pipeline.Cycle.Closed.{IsClosed}
use asterim.Pipeline.Cycle.Searched.{Searched, RootsHave, search_roots-Searched}
use asterim.Pipeline.Cycle.Ranking.{place, place_falls, no-IsCycle}
use asterim.Pipeline.Cycle.Tables.{
  has_step-includes, table_absent, Edge-listed, listed-Edge, step_entry,
}
use asterim.Pipeline.Cycle.Counted.{
  topological_pipeline_order-full, topological_pipeline_order-some,
}

has_step-cons :
    (id : String) (s : PipelineStep) (ss : List PipelineStep)
    → has_step id ss ≡ true
    → has_step id (s ∷ ss) ≡ true
has_step-cons id s ss h =
    has_step-includes id (s ∷ ss) ∙ or_right (str_eq id s.id) (sym (has_step-includes id ss) ∙ h)

own_steps : (ss : List PipelineStep) → All (λ root. has_step root.id ss ≡ true) ss
own_steps [] = tt
own_steps (s ∷ ss) =
    (has_step-includes s.id (s ∷ ss) ∙ rw (str_eq_refl s.id) refl, weaken ss (own_steps ss))
  where
    weaken :
        (roots : List PipelineStep)
        → All (λ root. has_step root.id ss ≡ true) roots
        → All (λ root. has_step root.id (s ∷ ss) ≡ true) roots
    weaken [] h = tt
    weaken (root ∷ roots) (first, h) = (has_step-cons root.id s ss first, weaken roots h)

root_of :
    (id : String) (ss : List PipelineStep)
    → includes id (ids_of ss) ≡ true
    → any (λ s. str_eq s.id id) ss ≡ true
root_of id [] h = absurd (cc)
root_of id (s ∷ ss) h = elim (or_either (str_eq id s.id) (includes id (ids_of ss)) h) [
  | inl here ↦ rw (str_eq_comm s.id id, here) refl
  | inr later ↦ or_right (str_eq s.id id) (root_of id ss later)
]

-- How the whole search ends.
abbrev Ended : List PipelineStep → Outcome → Type 0
Ended steps o =
    ((path_of o ≡ none)
      × ((ids : List String) × IsClosed steps ids
          × ((d : String) → has_step d steps ≡ true → includes d ids ≡ true)))
    ⊎ ((path : List String) × (path_of o ≡ some path) × IsCycle steps path)

find_pipeline_cycle-ends :
    (steps : List PipelineStep) → Ended steps (search_roots (cycle_fuel steps) steps steps [])
unfolding get
find_pipeline_cycle-ends steps = ended (search_roots (cycle_fuel steps) steps steps []) (
    search_roots-Searched steps (cycle_fuel steps) [] steps []
      (record { known = λ id e. absurd (cc); idle = λ id e. absurd (cc); ordered = tt })
      (omega (arith, weight-fuel steps)) (own_steps steps))
  where
    ended : (o : Outcome) → Searched steps (RootsHave steps [] steps) o → Ended steps o
    ended (closed marks) (ids, c, full) = inl (
      refl,
      (
        ids,
        c,
        λ d is_step. full d (inr (root_of d steps (sym (has_step-includes d steps) ∙ is_step))),
      ),
    )
    ended (cycle path) is_cycle = inr (path, refl, is_cycle)
    ended out_of_fuel impossible = absurd impossible

-- A path that is returned is a cycle: it begins and ends with the same step, and each step on it
-- has the next among its dependencies.
pub find_pipeline_cycle-IsCycle :
    (steps : List PipelineStep) (path : List String)
    → find_pipeline_cycle steps ≡ some path
    → IsCycle steps path
unfolding find_pipeline_cycle
find_pipeline_cycle-IsCycle steps path found = elim (find_pipeline_cycle-ends steps) [
  | inl (e, rest) ↦ absurd (cc)
  | inr (path', e, is_cycle) ↦
      let same : path' ≡ path = ground arith in subst (IsCycle steps) same is_cycle
]

-- An order from front to back is closed from back to front.
order-IsClosed :
    (steps : List PipelineStep) (before xs ids : List String)
    → IsKeyed (dependency_table steps)
    → Follows (dependency_table steps) before xs
    → ((d : String) → includes d before ≡ true → includes d ids ≡ true)
    → IsClosed steps ids
    → (ids' : List String) × IsClosed steps ids'
      × ((d : String) → (includes d ids ≡ true) ⊎ (includes d xs ≡ true) → includes d ids' ≡ true)
order-IsClosed steps before [] ids h f sub c =
    (ids, c, λ d has. elim has [ inl old ↦ old | inr bad ↦ absurd (cc) ])
order-IsClosed steps before (a ∷ xs) ids h (first, f) sub c =
    let (ids', c', all_in) =
      order-IsClosed steps (before ++ a ∷ []) xs (a ∷ ids) h f
        (λ d there. elim (includes-append d before (a ∷ []) there) [
          | inl old ↦ or_right (str_eq d a) (sub d old)
          | inr new ↦ elim (or_either (str_eq d a) false new) [
            | inl here ↦ rw here refl
            | inr bad ↦ absurd (cc)
          ]
        ])
        (
          λ d edge. sub d (
              all-includes d before (listed a (dependency_table steps)) first
                (Edge-listed steps h a d edge)),
          c,
        ) in
    (
      ids',
      c',
      λ d has. elim has [
        | inl old ↦ all_in d (inl (or_right (str_eq d a) old))
        | inr there ↦ elim (or_either (str_eq d a) (includes d xs) there) [
          | inl here ↦ all_in d (inl (rw here refl))
          | inr later ↦ all_in d (inr later)
        ]
      ],
    )
  where
    includes-append :
        (d : String) (xs ys : List String)
        → includes d (xs ++ ys) ≡ true
        → (includes d xs ≡ true) ⊎ (includes d ys ≡ true)
    includes-append d [] ys there = inr there
    includes-append d (x ∷ xs) ys there =
        elim (or_either (str_eq d x) (includes d (xs ++ ys)) there) [
          | inl here ↦ inl (rw here refl)
          | inr later ↦ elim (includes-append d xs ys later) [
            | inl l ↦ inl (or_right (str_eq d x) l)
            | inr r ↦ inr r
          ]
        ]

    all-includes :
        (d : String) (before ds : List String)
        → all (λ x. includes x before) ds ≡ true
        → includes d ds ≡ true
        → includes d before ≡ true
    all-includes d before [] h there = absurd (cc)
    all-includes d before (x ∷ ds) h there = elim (Bool-cases (includes x before)) [
      | inr e ↦ absurd (let b = rw e at h in cc)
      | inl e ↦ elim (or_either (str_eq d x) (includes d ds) there) [
        | inl here ↦ subst (λ k. includes k before ≡ true) (sym ((str_eq_iff d x).0 here)) e
        | inr later ↦ all-includes d before ds (rw e at h) later
      ]
    ]

ordered_no-IsCycle :
    (steps : List PipelineStep) (order path : List String)
    → IsKeyed (dependency_table steps)
    → topological_pipeline_order steps ≡ some order
    → ¬ IsCycle steps path
ordered_no-IsCycle steps order path h found =
    let walked : List String = (finished_walk steps).order in
    let (ids, c, all_in) =
      order-IsClosed steps [] walked [] h (finished_walk-Follows steps h).0 (λ d e. e) tt in
    no-IsCycle steps ids path c (λ d is_step. all_in d (
      inr (elim (Bool-cases (includes d walked)) [
        | inl there ↦ there
        | inr gone ↦ absurd (
            omega (
              arith,
              topological_pipeline_order-full steps order d h found is_step,
              absent_times d walked gone,
            ))
      ])))

-- When no two steps share an id, `findPipelineCycle` finds no cycle exactly when
-- `topologicalPipelineOrder` returns an order.
pub find_pipeline_cycle-topological_pipeline_order :
    (steps : List PipelineStep)
    → IsKeyed (dependency_table steps)
    → (find_pipeline_cycle steps ≡ none) ↔ (is_some (topological_pipeline_order steps) ≡ true)
unfolding find_pipeline_cycle
find_pipeline_cycle-topological_pipeline_order steps h = elim (find_pipeline_cycle-ends steps) [
  | inl (e, (ids, c, full)) ↦ (
    λ none_found. ap is_some (
        topological_pipeline_order-some steps h (λ a is_step.
          let (ds, entry) = step_entry steps h a is_step in
          omega (
            arith,
            finished_walk_complete steps (λ b. place b ids) a ds h
                (λ b d there.
                  let edge = listed-Edge steps h b d there in
                  place_falls steps ids b d c (full b (listed_step b d there)) edge)
                entry,
          ))),
    λ ordered. e,
  )
  | inr (path, e, is_cycle) ↦ (
    λ none_found. absurd (cc),
    λ ordered. elim (Option-cases (topological_pipeline_order steps)) [
      | inl none_ordered ↦ absurd (cc)
      | inr (order, found) ↦ absurd (ordered_no-IsCycle steps order path h found is_cycle)
    ],
  )
]
  where
    listed_step :
        (b d : String)
        → includes d (listed b (dependency_table steps)) ≡ true
        → has_step b steps ≡ true
    listed_step b d there = elim (Option-cases (by_id b steps)) [
      | inr (s, e) ↦ ap is_some e
      | inl e ↦ absurd (
          let bad : includes d [] ≡ true = rw (table_absent (ids_of steps) b steps e) at there in
          cc)
    ]
