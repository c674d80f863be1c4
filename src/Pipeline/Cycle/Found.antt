-- ===== src/Pipeline/Cycle/Found.antt =====
-- The invariant of the depth-first search, and what a turn of the loop makes of it.
use asterim.Prelude.{
  ℕ, zero, suc, ◌≡◌, refl, ap, subst, arith, ◌⊎◌, inl, inr, String, Bool, true, false, ◌||◌, none,
  some, List, [], ◌∷◌, ◌++◌, str_eq, str_eq_refl, str_eq_iff, str_eq-cases, Bool-cases, get_elem?,
  take, any, includes,
}
use asterim.Pipeline.Graph.{PipelineStep}
use asterim.Pipeline.Cycle.{by_id, has_step, depends_of, Frame, frame_is, opened, cycle_path}

pub or_right : {b : Bool} (a : Bool) → b ≡ true → a || b ≡ true
or_right true e = refl
or_right false e = e

pub or_either : (a b : Bool) → a || b ≡ true → (a ≡ true) ⊎ (b ≡ true)
or_either true b e = inl refl
or_either false b e = inr e

includes_here : (d : String) (xs : List String) → includes d (d ∷ xs) ≡ true
includes_here d xs = rw (str_eq_refl d) refl

-- What has been walked of a list.
pub take-suc :
    (xs : List String) (i : ℕ) (d : String) {x : String}
    → get_elem? xs i ≡ some x
    → includes d (take (suc i) xs) ≡ true
    → (includes d (take i xs) ≡ true) ⊎ (d ≡ x)
take-suc [] i d h e = absurd (cc)
take-suc (y ∷ xs) zero d h e = elim (str_eq-cases d y) [
  | inl same ↦ inr (ground arith)
  | inr other ↦ absurd (ground arith)
]
take-suc (y ∷ xs) (suc i) d h e = elim (Bool-cases (str_eq d y)) [
  | inl here ↦ inl (rw here refl)
  | inr other ↦ elim (take-suc xs i d h (rw other at e)) [
    | inl before ↦ inl (or_right (str_eq d y) before)
    | inr last ↦ inr last
  ]
]

pub take_all :
    (xs : List String) (i : ℕ) (d : String)
    → get_elem? xs i ≡ none
    → includes d xs ≡ true
    → includes d (take i xs) ≡ true
take_all [] i d h e = absurd (cc)
take_all (y ∷ xs) zero d h e = absurd (cc)
take_all (y ∷ xs) (suc i) d h e = elim (Bool-cases (str_eq d y)) [
  | inl here ↦ rw here refl
  | inr other ↦ or_right (str_eq d y) (take_all xs i d h (rw other at e))
]

pub includes-get_elem? :
    (xs : List String) (i : ℕ) {x : String} → get_elem? xs i ≡ some x → includes x xs ≡ true
includes-get_elem? [] i h = absurd (cc)
includes-get_elem? (y ∷ xs) zero {x} h =
    let same : y ≡ x = ground arith in rw (same, str_eq_refl x) refl
includes-get_elem? (y ∷ xs) (suc i) {x} h = or_right (str_eq x y) (includes-get_elem? xs i h)

module _ (steps : List PipelineStep) where
  abbrev pub dependencies : String → List String
  dependencies a = depends_of (by_id a steps)

  -- Step `a` depends on step `d`.
  abbrev pub Edge : String → String → Type 0
  Edge a d = (includes d (dependencies a) ≡ true) × (has_step d steps ≡ true)

  -- Each is a dependency of the one before it, from `a` over the list to `b`.
  abbrev pub Linked : String → List String → String → Type 0
  Linked a [] b = Edge a b
  Linked a (x ∷ xs) b = Edge a x × Linked x xs b

  -- A path of dependencies from a step back to itself.
  abbrev pub IsCycle : List String → Type 0
  IsCycle path =
      (a : String) × ((between : List String) × (path ≡ a ∷ between ++ a ∷ []) × Linked a between a)

  Linked-append :
      (a : String) (xs : List String) (b c : String)
      → Linked a xs b
      → Edge b c
      → Linked a (xs ++ b ∷ []) c
  Linked-append a [] b c h e = (h, e)
  Linked-append a (x ∷ xs) b c (first, h) e = (first, Linked-append x xs b c h e)

  -- Each frame of the stack is a dependency of the one below it.
  abbrev pub ChainedOn : String → List Frame → Type 0
  ChainedOn x [] = Unit
  ChainedOn x (g ∷ below) = Edge g.id x × ChainedOn g.id below

  abbrev pub Chained : List Frame → Type 0
  Chained [] = Unit
  Chained (f ∷ below) = ChainedOn f.id below

  abbrev Opened : String → Frame → List Frame → Type 0
  Opened id f below =
      ((opened id (f ∷ below) ≡ id ∷ []) × (f.id ≡ id))
      ⊎ ((between : List String) × (opened id (f ∷ below) ≡ id ∷ between ++ f.id ∷ [])
          × Linked id between f.id)

  only_here :
      (id : String) (f : Frame) (below : List Frame)
      → any (frame_is id) (f ∷ below) ≡ true
      → any (frame_is id) below ≡ false
      → f.id ≡ id
  only_here id f below h e = elim (or_either (str_eq f.id id) (any (frame_is id) below) h) [
    | inl same ↦ (str_eq_iff f.id id).0 same
    | inr deeper ↦ absurd (cc)
  ]

  Opened-Linked :
      (id : String) (f : Frame) (below : List Frame)
      → ChainedOn f.id below
      → any (frame_is id) (f ∷ below) ≡ true
      → Opened id f below
  Opened-Linked id f [] c h =
      let same : f.id ≡ id = only_here id f [] h refl in inl (ap (λ k. k ∷ []) same, same)
  Opened-Linked id f (g ∷ below) (edge, c) h = elim (Bool-cases (any (frame_is id) (g ∷ below))) [
    | inr none_below ↦
        let same : f.id ≡ id = only_here id f (g ∷ below) h none_below in
        inl (rw none_below (ap (λ k. k ∷ []) same), same)
    | inl deeper ↦ elim (Opened-Linked id g below c deeper) [
      | inl (one, top) ↦ inr ([], rw (deeper, one) refl, subst (λ k. Edge k f.id) top edge)
      | inr (between, more, linked) ↦ inr (
        between ++ g.id ∷ [],
        rw (deeper, more) refl,
        Linked-append id between g.id f.id linked edge,
      )
    ]
  ]

  -- The path that is returned closes a cycle.
  pub cycle_path-IsCycle :
      (id : String) (f : Frame) (below : List Frame)
      → ChainedOn f.id below
      → any (frame_is id) (f ∷ below) ≡ true
      → Edge f.id id
      → IsCycle (cycle_path id f below)
  cycle_path-IsCycle id f below c h e = elim (Opened-Linked id f below c h) [
    | inl (one, top) ↦ (id, ([], rw (h, one) refl, subst (λ k. Edge k id) top e))
    | inr (between, more, linked) ↦
        (id, (between ++ f.id ∷ [], rw (h, more) refl, Linked-append id between f.id id linked e))
  ]
