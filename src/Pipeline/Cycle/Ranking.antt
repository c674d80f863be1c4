-- ===== src/Pipeline/Cycle/Ranking.antt =====
-- A list that is closed under dependencies ranks its steps, so no cycle stands in it.
use asterim.Prelude.{
  ℕ, suc, ◌≤◌, ◌<◌, ◌≡◌, subst, arith, inl, inr, String, true, List, [], ◌∷◌, if◌then◌else◌, str_eq,
  str_eq_iff, Bool-cases, length, includes,
}
use asterim.Pipeline.Graph.{PipelineStep}
use asterim.Pipeline.Cycle.{has_step}
use asterim.Pipeline.Cycle.Found.{or_either, or_right, Edge, Linked, IsCycle}
use asterim.Pipeline.Cycle.Closed.{IsClosed}

-- How many stand from the last place of `a` on.
pub place : String → List String → ℕ
place a [] = 0
place a (x ∷ xs) =
    let deeper = place a xs in
    if includes a xs then deeper else if str_eq a x then suc (length xs) else 0

place-le : (a : String) (xs : List String) → place a xs ≤ length xs
unfolding place
place-le a [] = omega arith
place-le a (x ∷ xs) = ground (arith, place-le a xs)

closed_under :
    (steps : List PipelineStep) (ids : List String) (a d : String)
    → IsClosed steps ids
    → includes a ids ≡ true
    → Edge steps a d
    → includes d ids ≡ true
closed_under steps [] a d c there edge = absurd (cc)
closed_under steps (x ∷ xs) a d (first, c) there edge =
    elim (or_either (str_eq a x) (includes a xs) there) [
      | inl same ↦
          or_right (str_eq d x)
            (first d (subst (λ k. Edge steps k d) ((str_eq_iff a x).0 same) edge))
      | inr later ↦ or_right (str_eq d x) (closed_under steps xs a d c later edge)
    ]

-- A step stands above its dependencies.
pub place_falls :
    (steps : List PipelineStep) (ids : List String) (a d : String)
    → IsClosed steps ids
    → includes a ids ≡ true
    → Edge steps a d
    → place d ids < place a ids
unfolding place
place_falls steps [] a d c there edge = absurd (cc)
place_falls steps (x ∷ xs) a d (first, c) there edge = elim (Bool-cases (includes a xs)) [
  | inl deeper ↦
      rw (deeper, closed_under steps xs a d c deeper edge) (place_falls steps xs a d c deeper edge)
  | inr none_deeper ↦ elim (or_either (str_eq a x) (includes a xs) there) [
    | inr bad ↦ absurd (cc)
    | inl same ↦
        let below : includes d xs ≡ true =
          first d (subst (λ k. Edge steps k d) ((str_eq_iff a x).0 same) edge) in
        rw (none_deeper, same, below) (omega (arith, place-le d xs))
  ]
]

Linked-falls :
    (steps : List PipelineStep) (ids : List String) (a : String) (between : List String)
    (b : String)
    → IsClosed steps ids
    → ((d : String) → has_step d steps ≡ true → includes d ids ≡ true)
    → has_step a steps ≡ true
    → Linked steps a between b
    → place b ids < place a ids
Linked-falls steps ids a [] b c full is_step edge =
    place_falls steps ids a b c (full a is_step) edge
Linked-falls steps ids a (x ∷ between) b c full is_step (edge, linked) = omega (
  arith,
  place_falls steps ids a x c (full a is_step) edge,
  Linked-falls steps ids x between b c full edge.1 linked,
)

Linked-step :
    (steps : List PipelineStep) (a : String) (between : List String) (b : String)
    → Linked steps a between b
    → has_step b steps ≡ true
Linked-step steps a [] b edge = edge.1
Linked-step steps a (x ∷ between) b (edge, linked) = Linked-step steps x between b linked

-- No cycle goes through a closed list that has all the steps.
pub no-IsCycle :
    (steps : List PipelineStep) (ids path : List String)
    → IsClosed steps ids
    → ((d : String) → has_step d steps ≡ true → includes d ids ≡ true)
    → ¬ IsCycle steps path
no-IsCycle steps ids path c full (a, (between, same, linked)) = absurd (
    omega (
      arith,
      Linked-falls steps ids a between a c full (Linked-step steps a between a linked) linked,
    ))
