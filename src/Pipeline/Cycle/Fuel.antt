-- ===== src/Pipeline/Cycle/Fuel.antt =====
-- The fuel of `find_pipeline_cycle` is enough.
use asterim.Prelude.{
  ℕ, zero, suc, ◌+◌, ◌-◌, ◌≤◌, ◌<◌, ◌≡◌, ◌≢◌, refl, sym, subst, arith, inl, inr, String, Bool, true,
  false, Option, none, some, List, [], ◌∷◌, str_eq, str_eq_iff, str_eq-cases, Bool-cases,
  Option-cases, get_elem?, length, is_some, Map, get, put, get-put,
}
use asterim.Pipeline.Graph.{PipelineStep}
use asterim.Pipeline.Cycle.{
  Mark, visiting, finished, by_id, has_step, depends_of, Frame, Search, going, closing, Turn,
  walk_marked, cycle_turn, Outcome, closed, cycle, out_of_fuel, search_stack, root_frame,
  search_root, cycle_fuel,
}

abbrev is_unmarked : Option Mark → Bool
is_unmarked none = true
is_unmarked (some m) = false

abbrev cost_if : Bool → ℕ → ℕ
cost_if true n = n
cost_if false n = 0

-- The turns that the unmarked steps can cost.
pub weight : Map Mark → List PipelineStep → ℕ
weight marks [] = 0
weight marks (s ∷ ss) =
    cost_if (is_unmarked (get s.id marks)) (suc (length s.depends_on)) + weight marks ss

pub weight-fuel : (ss : List PipelineStep) → weight [] ss ≡ cycle_fuel ss
unfolding weight get
weight-fuel [] = refl
weight-fuel (s ∷ ss) = omega (arith, weight-fuel ss)

cost-put :
    (id k : String) (m : Mark) (marks : Map Mark) (n : ℕ)
    → cost_if (is_unmarked (get k (put id m marks))) n ≤ cost_if (is_unmarked (get k marks)) n
cost-put id k m marks n = elim (Bool-cases (str_eq id k)) [
  | inl e ↦ rw (get-put k id m marks, e) (omega arith)
  | inr e ↦ rw (get-put k id m marks, e) (omega arith)
]

weight-put :
    (id : String) (m : Mark) (marks : Map Mark) (ss : List PipelineStep)
    → weight (put id m marks) ss ≤ weight marks ss
unfolding weight
weight-put id m marks [] = omega arith
weight-put id m marks (s ∷ ss) =
    omega (arith, cost-put id s.id m marks (suc (length s.depends_on)), weight-put id m marks ss)

-- A step that gets its first mark leaves the sum.
weight-mark :
    (id : String) (s : PipelineStep) (m : Mark) (marks : Map Mark) (ss : List PipelineStep)
    → get id marks ≡ none
    → by_id id ss ≡ some s
    → weight (put id m marks) ss + suc (length s.depends_on) ≤ weight marks ss
unfolding weight by_id
weight-mark id s m marks [] new h = absurd (cc)
weight-mark id s m marks (t ∷ ss) new h = elim (Option-cases (by_id id ss)) [
  | inr (u, e) ↦
      let same : by_id id ss ≡ some s = ground arith in
      omega (
        arith,
        weight-mark id s m marks ss new same,
        cost-put id t.id m marks (suc (length t.depends_on)),
      )
  | inl e ↦ elim (str_eq-cases t.id id) [
    | inr other ↦ absurd (ground arith)
    | inl here ↦
        let same : t ≡ s = ground (arith, str_eq_iff t.id id) in
        let before : get t.id marks ≡ none = subst (λ k. get k marks ≡ none) (sym here) new in
        let length_same : length t.depends_on ≡ length s.depends_on =
          subst (λ u. length t.depends_on ≡ length u.depends_on) same refl in
        rw (get-put t.id id m marks, (str_eq_iff id t.id).1 (sym here), before)
          (omega (arith, length_same, weight-put id m marks ss))
  ]
]

frame_cost : List PipelineStep → Frame → ℕ
frame_cost steps f = suc (length (depends_of (by_id f.id steps)) - f.next)

stack_cost : List PipelineStep → List Frame → ℕ
stack_cost steps [] = 0
stack_cost steps (f ∷ below) = frame_cost steps f + stack_cost steps below

cost : List PipelineStep → Map Mark → List Frame → ℕ
cost steps marks stack = weight marks steps + stack_cost steps stack

lt-length : (xs : List String) (i : ℕ) {x : String} → get_elem? xs i ≡ some x → i < length xs
lt-length [] i h = absurd (cc)
lt-length (x ∷ xs) zero h = omega arith
lt-length (x ∷ xs) (suc i) h = omega (arith, lt-length xs i h)

abbrev TurnCosts : List PipelineStep → ℕ → Turn → Type 0
TurnCosts steps n (closing path) = Unit
TurnCosts steps n (going s) = cost steps s.marks s.stack < n

step_of : (o : Option PipelineStep) → is_some o ≡ true → (s : PipelineStep) × (o ≡ some s)
step_of none h = absurd (cc)
step_of (some s) h = (s, refl)

walk_marked-cost :
    (steps : List PipelineStep) (id : String) (marks : Map Mark) (f : Frame) (below : List Frame)
    → has_step id steps ≡ true
    → f.next < length (depends_of (by_id f.id steps))
    → TurnCosts steps
        (cost steps marks (f ∷ below))
        (walk_marked (get id marks) id marks (record f { next = suc f.next }) below)
unfolding walk_marked cost stack_cost frame_cost
walk_marked-cost steps id marks f below there room = elim (Option-cases (get id marks)) [
  | inr (visiting, e) ↦ rw e tt
  | inr (finished, e) ↦ rw e (omega arith)
  | inl e ↦
      let (s, found) = step_of (by_id id steps) there in
      rw (e, found) (omega (arith, weight-mark id s visiting marks steps e found))
]

cycle_turn-cost :
    (steps : List PipelineStep) (marks : Map Mark) (f : Frame) (below : List Frame)
    → TurnCosts steps (cost steps marks (f ∷ below)) (cycle_turn steps marks f below)
unfolding cycle_turn cost stack_cost frame_cost
cycle_turn-cost steps marks f below =
    elim (Option-cases (get_elem? (depends_of (by_id f.id steps)) f.next)) [
      | inl e ↦ rw (e, cycle_turn, TurnCosts) (omega (arith, weight-put f.id finished marks steps))
      | inr (id, e) ↦
          let room : f.next < length (depends_of (by_id f.id steps)) =
            lt-length (depends_of (by_id f.id steps)) f.next e in
          rw (e, cycle_turn, TurnCosts)
            (elim (Bool-cases (has_step id steps)) [
              | inl there ↦ rw there (walk_marked-cost steps id marks f below there room)
              | inr unknown ↦ rw unknown (omega arith)
            ])
    ]

-- The search ends, and leaves no more to do than it found.
abbrev pub Ends : List PipelineStep → ℕ → Outcome → Type 0
Ends steps n (closed marks) = weight marks steps ≤ n
Ends steps n (cycle path) = Unit
Ends steps n out_of_fuel = ⊥

Ends-mono :
    (steps : List PipelineStep) (m n : ℕ) (o : Outcome) → m ≤ n → Ends steps m o → Ends steps n o
Ends-mono steps m n (closed marks) h e = omega arith
Ends-mono steps m n (cycle path) h e = tt
Ends-mono steps m n out_of_fuel h e = e

search_stack-Ends :
    (n : ℕ) (steps : List PipelineStep) (marks : Map Mark) (stack : List Frame)
    → cost steps marks stack ≤ n
    → Ends steps (cost steps marks stack) (search_stack n steps marks stack)
unfolding search_stack cost stack_cost
search_stack-Ends n steps marks [] h = omega arith
search_stack-Ends zero steps marks (f ∷ below) h = absurd (unfold frame_cost in omega arith)
search_stack-Ends (suc n) steps marks (f ∷ below) h =
    next (cycle_turn steps marks f below) (cycle_turn-cost steps marks f below)
      (λ s small. search_stack-Ends n steps s.marks s.stack small)
  where
    next :
        (t : Turn)
        → TurnCosts steps (cost steps marks (f ∷ below)) t
        → ((s : Search)
            → cost steps s.marks s.stack ≤ n
            → Ends steps (cost steps s.marks s.stack) (search_stack n steps s.marks s.stack))
        → Ends steps
            (cost steps marks (f ∷ below))
            (elim t [ closing path ↦ cycle path | going s ↦ search_stack n steps s.marks s.stack ])
    next (closing path) fall ih = tt
    next (going s) fall ih =
        Ends-mono steps (cost steps s.marks s.stack) (cost steps marks (f ∷ below))
          (search_stack n steps s.marks s.stack) (omega arith) (ih s (omega arith))

-- The turns of all the roots are paid by the steps that they mark.
pub search_root-Ends :
    (n : ℕ) (steps : List PipelineStep) (root : PipelineStep) (marks : Map Mark)
    → has_step root.id steps ≡ true
    → get root.id marks ≢ some visiting
    → weight marks steps ≤ n
    → Ends steps (weight marks steps) (search_root n steps root marks)
search_root-Ends n steps root marks there idle h = elim (Option-cases (get root.id marks)) [
  | inr (finished, e) ↦ rw e (omega arith)
  | inr (visiting, e) ↦ absurd (idle e)
  | inl e ↦
      let (s, found) = step_of (by_id root.id steps) there in
      let first : Map Mark = put root.id visiting marks in
      let paid : cost steps first (root_frame root ∷ []) ≤ weight marks steps =
        unfold cost stack_cost frame_cost in
        rw found (omega (arith, weight-mark root.id s visiting marks steps e found)) in
      rw e (
        Ends-mono steps (cost steps first (root_frame root ∷ [])) (weight marks steps)
          (search_stack n steps first (root_frame root ∷ [])) paid
          (search_stack-Ends n steps first (root_frame root ∷ []) (omega (arith, paid, h))))
]
