-- ===== src/Pipeline/Cycle/Searched.antt =====
-- What the depth-first search has found when it ends.
use asterim.Prelude.{
  ℕ, zero, suc, ◌≡◌, ◌≢◌, ◌≤◌, refl, sym, subst, arith, ◌⊎◌, inl, inr, String, Bool, true, false,
  ◌||◌, Option, none, some, List, [], ◌∷◌, str_eq, str_eq_refl, str_eq_iff, str_eq_comm, Bool-cases,
  Option-cases, get_elem?, any, includes, Map, get, put, All,
}
use asterim.Pipeline.Graph.{PipelineStep}
use asterim.Pipeline.Cycle.{
  Mark, visiting, finished, has_step, Frame, frame_is, Search, going, closing, Turn, walk_marked,
  cycle_turn, Outcome, closed, cycle, out_of_fuel, search_stack, is_finished, root_frame,
  search_root, search_roots,
}
use asterim.Pipeline.Cycle.Fuel.{weight, Ends, search_root-Ends}
use asterim.Pipeline.Cycle.Found.{
  or_right, or_either, includes-get_elem?, dependencies, IsCycle, cycle_path-IsCycle,
}
use asterim.Pipeline.Cycle.Closed.{IsClosed, Inv, Inv-pop, Inv-walk, Inv-push, mark_cases}

-- A step that is finished or on the stack.
abbrev Held : String → List String → List Frame → Type 0
Held r ids stack = includes r ids || any (frame_is r) stack ≡ true

or_left : (a b : Bool) → a ≡ true → a || b ≡ true
or_left true b h = refl
or_left false b h = absurd (cc)

Held-pop :
    (r : String) (ids : List String) (f : Frame) (below : List Frame)
    → Held r ids (f ∷ below)
    → Held r (f.id ∷ ids) below
Held-pop r ids f below h = ground (arith, str_eq_comm r f.id)

Held-push :
    (r : String) (ids : List String) (f : Frame) (stack : List Frame)
    → Held r ids stack
    → Held r ids (f ∷ stack)
Held-push r ids f stack h = ground arith

module _ (steps : List PipelineStep) where
  abbrev Kept : List String → List Frame → List String → List Frame → Type 0
  Kept ids stack ids' stack' = (r : String) → Held r ids stack → Held r ids' stack'

  abbrev TurnGood : List String → List Frame → Turn → Type 0
  TurnGood ids stack (closing path) = IsCycle steps path
  TurnGood ids stack (going s) =
      (ids' : List String) × Inv steps ids' s.marks s.stack × Kept ids stack ids' s.stack

  walk_marked-Good :
      (ids : List String) (marks : Map Mark) (f : Frame) (below : List Frame) (id : String)
      → get_elem? (dependencies steps f.id) f.next ≡ some id
      → has_step id steps ≡ true
      → Inv steps ids marks (f ∷ below)
      → TurnGood ids
          (f ∷ below)
          (walk_marked (get id marks) id marks (record f { next = suc f.next }) below)
  unfolding walk_marked
  walk_marked-Good ids marks f below id there is_step h = elim (Option-cases (get id marks)) [
    | inl e ↦
        rw (e, TurnGood)
          (
            ids,
            Inv-push steps ids marks f below id there h is_step,
            λ r held. Held-push r ids (record { id = id; next = 0 }) (f ∷ below) held,
          )
    | inr (finished, e) ↦
        rw (e, TurnGood)
          (ids, Inv-walk steps ids marks f below id there h (λ known. h.known id e), λ r held. held)
    | inr (visiting, e) ↦
        rw (e, TurnGood)
          (cycle_path-IsCycle steps id (record f { next = suc f.next }) below h.chained
            (h.busy id e) (includes-get_elem? (dependencies steps f.id) f.next there, is_step))
  ]

  cycle_turn-Good :
      (ids : List String) (marks : Map Mark) (f : Frame) (below : List Frame)
      → Inv steps ids marks (f ∷ below)
      → TurnGood ids (f ∷ below) (cycle_turn steps marks f below)
  unfolding cycle_turn
  cycle_turn-Good ids marks f below h =
      elim (Option-cases (get_elem? (dependencies steps f.id) f.next)) [
        | inl e ↦
            rw (e, cycle_turn, TurnGood)
              (
                f.id ∷ ids,
                Inv-pop steps ids marks f below e h,
                λ r held. Held-pop r ids f below held,
              )
        | inr (id, e) ↦
            rw (e, cycle_turn, TurnGood)
              (elim (Bool-cases (has_step id steps)) [
                | inl is_step ↦ rw is_step (walk_marked-Good ids marks f below id e is_step h)
                | inr unknown ↦ rw unknown (
                  ids,
                  Inv-walk steps ids marks f below id e h (λ known. absurd (cc)),
                  λ r held. held,
                )
              ])
      ]

  -- What is known of the marks when no step is on the stack.
  pub record Settled (ids : List String) (marks : Map Mark) : Type 0 where
    pub known : (id : String) → get id marks ≡ some finished → includes id ids ≡ true
    pub idle : (id : String) → get id marks ≢ some visiting
    pub ordered : IsClosed steps ids

  abbrev pub Good : (String → Type 0) → Outcome → Type 0
  Good Has (closed marks) =
      (ids : List String) × Settled ids marks × ((r : String) → Has r → includes r ids ≡ true)
  Good Has (cycle path) = IsCycle steps path
  Good Has out_of_fuel = Unit

  Good-mono :
      (Has Had : String → Type 0) (o : Outcome)
      → ((r : String) → Had r → Has r)
      → Good Has o
      → Good Had o
  Good-mono Has Had (closed marks) f (ids, s, all_in) = (ids, s, λ r had. all_in r (f r had))
  Good-mono Has Had (cycle path) f g = g
  Good-mono Has Had out_of_fuel f g = tt

  or_false : (a : Bool) → a || false ≡ true → a ≡ true
  or_false true h = refl
  or_false false h = h

  search_stack-Good :
      (n : ℕ) (ids : List String) (marks : Map Mark) (stack : List Frame)
      → Inv steps ids marks stack
      → Good (λ r. Held r ids stack) (search_stack n steps marks stack)
  unfolding search_stack
  search_stack-Good n ids marks [] h = (
    ids,
    record {
      known = h.known;
      idle = λ id e. absurd (let b = h.busy id e in cc);
      ordered = h.ordered;
    },
    λ r held. or_false (includes r ids) held,
  )
  search_stack-Good zero ids marks (f ∷ below) h = tt
  search_stack-Good (suc n) ids marks (f ∷ below) h =
      next (cycle_turn steps marks f below) (cycle_turn-Good ids marks f below h)
        (λ ids' s inv. search_stack-Good n ids' s.marks s.stack inv)
    where
      next :
          (t : Turn)
          → TurnGood ids (f ∷ below) t
          → ((ids' : List String) (s : Search)
              → Inv steps ids' s.marks s.stack
              → Good (λ r. Held r ids' s.stack) (search_stack n steps s.marks s.stack))
          → Good
              (λ r. Held r ids (f ∷ below))
              (elim t [
                | closing path ↦ cycle path
                | going s ↦ search_stack n steps s.marks s.stack
              ])
      next (closing path) g ih = g
      next (going s) (ids', inv, kept) ih =
          Good-mono (λ r. Held r ids' s.stack) (λ r. Held r ids (f ∷ below))
            (search_stack n steps s.marks s.stack) kept (ih ids' s inv)

  Inv-root :
      (ids : List String) (marks : Map Mark) (root : PipelineStep)
      → Settled ids marks
      → Inv steps ids (put root.id visiting marks) (root_frame root ∷ [])
  Inv-root ids marks root h = record {
    chained = tt;
    walked = (λ d none_walked is_step. absurd (cc), tt);
    busy = λ k e. elim (mark_cases steps root.id k visiting visiting marks e) [
      | inl (same, ok) ↦ rw (same, str_eq_refl root.id) refl
      | inr (other, old) ↦ absurd (h.idle k old)
    ];
    known = λ k e. elim (mark_cases steps root.id k visiting finished marks e) [
      | inl (same, bad) ↦ absurd (cc)
      | inr (other, old) ↦ h.known k old
    ];
    ordered = h.ordered;
  }

  RootHas : List String → PipelineStep → String → Type 0
  RootHas ids root r = (includes r ids ≡ true) ⊎ (r ≡ root.id)

  search_root-Good :
      (n : ℕ) (ids : List String) (root : PipelineStep) (marks : Map Mark)
      → Settled ids marks
      → Good (RootHas ids root) (search_root n steps root marks)
  unfolding RootHas
  search_root-Good n ids root marks h = elim (Bool-cases (is_finished (get root.id marks))) [
    | inl done ↦
        rw (done, Good)
          (
            ids,
            h,
            λ r has. elim has [
              | inl old ↦ old
              | inr same ↦
                  subst (λ k. includes k ids ≡ true) (sym same) (h.known root.id (mark_done _ done))
            ],
          )
    | inr fresh ↦ rw fresh (
        Good-mono (λ r. Held r ids (root_frame root ∷ [])) (RootHas ids root)
          (search_stack n steps (put root.id visiting marks) (root_frame root ∷ []))
          (λ r has. elim has [
            | inl old ↦ or_left (includes r ids) _ old
            | inr same ↦ or_right (includes r ids) (rw (same, str_eq_refl root.id) refl)
          ])
          (search_stack-Good n ids (put root.id visiting marks) (root_frame root ∷ [])
            (Inv-root ids marks root h)))
  ]
    where
      mark_done : (o : Option Mark) → is_finished o ≡ true → o ≡ some finished
      mark_done none e = absurd (cc)
      mark_done (some visiting) e = absurd (cc)
      mark_done (some finished) e = refl

  -- How the search of all the roots ends: with every root finished, or with a cycle.
  abbrev pub Searched : (String → Type 0) → Outcome → Type 0
  Searched Has (closed marks) =
      (ids : List String) × IsClosed steps ids × ((r : String) → Has r → includes r ids ≡ true)
  Searched Has (cycle path) = IsCycle steps path
  Searched Has out_of_fuel = ⊥

  abbrev pub IsRoot : List PipelineStep → String → Type 0
  IsRoot roots r = any (λ s. str_eq s.id r) roots ≡ true

  Searched-mono :
      (Has Had : String → Type 0) (o : Outcome)
      → ((r : String) → Had r → Has r)
      → Searched Has o
      → Searched Had o
  Searched-mono Has Had (closed marks) f (ids, s, all_in) = (ids, s, λ r had. all_in r (f r had))
  Searched-mono Has Had (cycle path) f g = g
  Searched-mono Has Had out_of_fuel f g = g

  abbrev pub RootsHave : List String → List PipelineStep → String → Type 0
  RootsHave ids roots r = (includes r ids ≡ true) ⊎ IsRoot roots r

  pub search_roots-Searched :
      (n : ℕ) (ids : List String) (roots : List PipelineStep) (marks : Map Mark)
      → Settled ids marks
      → weight marks steps ≤ n
      → All (λ root. has_step root.id steps ≡ true) roots
      → Searched (RootsHave ids roots) (search_roots n steps roots marks)
  unfolding search_roots RootHas
  search_roots-Searched n ids [] marks h paid known =
      (ids, h.ordered, λ r has. elim has [ inl old ↦ old | inr bad ↦ absurd (cc) ])
  search_roots-Searched n ids (root ∷ roots) marks h paid (first, known) =
      next (search_root n steps root marks) (search_root-Good n ids root marks h)
        (search_root-Ends n steps root marks first (h.idle root.id) paid)
        (λ ids' marks' h' paid'. search_roots-Searched n ids' roots marks' h' paid' known)
    where
      next :
          (o : Outcome)
          → Good (RootHas ids root) o
          → Ends steps (weight marks steps) o
          → ((ids' : List String) (marks' : Map Mark)
              → Settled ids' marks'
              → weight marks' steps ≤ n
              → Searched (RootsHave ids' roots) (search_roots n steps roots marks'))
          → Searched (RootsHave ids (root ∷ roots)) (elim o [
            | closed marks' ↦ search_roots n steps roots marks'
            | cycle path ↦ cycle path
            | out_of_fuel ↦ out_of_fuel
          ])
      next (cycle path) g ends ih = g
      next out_of_fuel g ends ih = ends
      next (closed marks') (ids', settled, all_in) ends ih =
          Searched-mono (RootsHave ids' roots) (RootsHave ids (root ∷ roots))
            (search_roots n steps roots marks')
            (λ r has. elim has [
              | inl old ↦ inl (all_in r (inl old))
              | inr among ↦
                  elim (or_either (str_eq root.id r) (any (λ s. str_eq s.id r) roots) among) [
                    | inl here ↦ inl (all_in r (inr (sym ((str_eq_iff root.id r).0 here))))
                    | inr later ↦ inr later
                  ]
            ])
            (ih ids' marks' settled (omega arith))
