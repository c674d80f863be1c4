-- ===== src/Pipeline/Prepared.antt =====
-- What the plan of `topologicalPipelineOrder` holds before its loop starts.
use asterim.Prelude.{
  ℕ, ◌+◌, ◌≡◌, refl, ap, ◌∙◌, subst, arith, inl, inr, String, Bool, true, Option, none, some, List,
  [], ◌∷◌, ◌++◌, if◌then◌else◌, str_eq, str_eq_refl, str_eq_iff, str_eq-cases, Bool-cases, get_or,
  length, Map, get, put, get-put, IsKeyed, one, ap-if,
}
use asterim.Pipeline.Graph.{
  PipelineStep, Left, pos, known_dependencies, Plan, add_dependent, plan_step, plan_steps,
}

-- How often a text stands in a list.
abbrev pub times : String → List String → ℕ
times a [] = 0
times a (b ∷ bs) = one (str_eq b a) + times a bs

pub times-append : (a : String) (xs ys : List String) → times a (xs ++ ys) ≡ times a xs + times a ys
times-append a [] ys = omega arith
times-append a (x ∷ xs) ys = omega (arith, times-append a xs ys)

-- The steps with their known dependencies.
abbrev pub table_of : List String → List PipelineStep → Map (List String)
table_of ids [] = []
table_of ids (s ∷ ss) = (s.id, known_dependencies ids s) ∷ table_of ids ss

abbrev pub listed : String → Map (List String) → List String
listed x m = get_or (get x m) []

listed-put :
    (x d : String) (v : List String) (m : Map (List String))
    → listed x (put d v m) ≡ (if str_eq d x then v else listed x m)
listed-put x d v m =
    ap (λ o. get_or o []) (get-put x d v m) ∙ ap-if (λ o. get_or o []) (str_eq d x) _ _

listed-add :
    (a x d id : String) (m : Map (List String))
    → times a (listed x (put d (listed d m ++ id ∷ []) m))
      ≡ times a (listed x m) + (if str_eq d x then one (str_eq id a) else 0)
listed-add a x d id m = elim (str_eq-cases d x) [
  | inl same ↦
      rw (same, listed-put x x (listed x m ++ id ∷ []) m, str_eq_refl x)
        (omega (arith, times-append a (listed x m) (id ∷ [])))
  | inr other ↦ rw (listed-put x d (listed d m ++ id ∷ []) m, other) (omega arith)
]

add_dependent-times :
    (a x id : String) (ds : List String) (m : Map (List String))
    → times a (listed x (add_dependent id ds m))
      ≡ times a (listed x m) + (if str_eq id a then times x ds else 0)
unfolding add_dependent
add_dependent-times a x id [] m = elim (Bool-cases (str_eq id a)) [
  | inl e ↦ rw e (omega arith)
  | inr e ↦ rw e (omega arith)
]
add_dependent-times a x id (d ∷ ds) m =
    let longer : Map (List String) = put d (listed d m ++ id ∷ []) m in
    elim (Bool-cases (str_eq id a)) [
      | inl e ↦ rw e (elim (Bool-cases (str_eq d x)) [
        | inl f ↦ rw f (
            omega (
              arith,
              rw e at (add_dependent-times a x id ds longer),
              rw (e, f) at (listed-add a x d id m),
            ))
        | inr f ↦ rw f (
            omega (
              arith,
              rw e at (add_dependent-times a x id ds longer),
              rw f at (listed-add a x d id m),
            ))
      ])
      | inr e ↦ rw e (elim (Bool-cases (str_eq d x)) [
        | inl f ↦ omega (
          arith,
          rw e at (add_dependent-times a x id ds longer),
          rw (e, f) at (listed-add a x d id m),
        )
        | inr f ↦
            omega (
              arith,
              rw e at (add_dependent-times a x id ds longer),
              rw f at (listed-add a x d id m),
            )
      ])
    ]

abbrev pub counted_or : Option (List String) → Option Left → Option Left
counted_or none o = o
counted_or (some ds) o = some (pos (length ds))

pub plan_steps-outstanding :
    (ids : List String) (a : String) (ss : List PipelineStep) (p : Plan)
    → IsKeyed (table_of ids ss)
    → get a (plan_steps ids ss p).outstanding
      ≡ counted_or (get a (table_of ids ss)) (get a p.outstanding)
unfolding plan_steps get
plan_steps-outstanding ids a [] p h = refl
plan_steps-outstanding ids a (s ∷ ss) p (fresh, h) =
    let ds = known_dependencies ids s in
    plan_steps-outstanding ids a ss (plan_step s.id ds p) h
    ∙ (ap (counted_or (get a (table_of ids ss))) (get-put a s.id (pos (length ds)) p.outstanding)
        ∙ (elim (str_eq-cases s.id a) [
          | inl same ↦
              first_only ds (str_eq s.id a) (rw (same, str_eq_refl a) refl) (rw same at fresh)
          | inr other ↦ rw other refl
        ]))
  where
    first_only :
        (ds : List String) (b : Bool)
        → b ≡ true
        → get a (table_of ids ss) ≡ none
        → counted_or
            (get a (table_of ids ss))
            (if b then some (pos (length ds)) else get a p.outstanding)
          ≡ counted_or (if b then some ds else get a (table_of ids ss)) (get a p.outstanding)
    first_only ds b e none_left = rw (e, none_left) refl

pub plan_steps-times :
    (ids : List String) (a x : String) (ss : List PipelineStep) (p : Plan)
    → IsKeyed (table_of ids ss)
    → times a (listed x (plan_steps ids ss p).dependents)
      ≡ times a (listed x p.dependents) + times x (listed a (table_of ids ss))
unfolding plan_steps get
plan_steps-times ids a x [] p h = omega arith
plan_steps-times ids a x (s ∷ ss) p (fresh, h) =
    let ds = known_dependencies ids s in
    let before = plan_steps-times ids a x ss (plan_step s.id ds p) h in
    let added = add_dependent-times a x s.id ds p.dependents in
    elim (Bool-cases (str_eq s.id a)) [
      | inl e ↦
          let gone : times x (listed a (table_of ids ss)) ≡ 0 =
            ap (λ o. times x (get_or o []))
              (subst (λ k. get k (table_of ids ss) ≡ none) ((str_eq_iff s.id a).0 e) fresh) in
          rw e (omega (arith, before, rw e at added, gone))
      | inr e ↦ rw e (omega (arith, before, rw e at added))
    ]
