-- ===== src/Pipeline/Turn.antt =====
-- The turns of the loop of `topologicalPipelineOrder`: each takes a step whose dependencies are all
-- ordered, and no step twice.
use asterim.Prelude.{
  ℕ, zero, suc, ◌+◌, ◌≤◌, ◌≡◌, refl, ap, ◌∙◌, arith, ◌⊎◌, inl, inr, String, true, some, List, [],
  ◌∷◌, ◌++◌, append-nil, append_assoc, str_eq_refl, Bool-cases, Option-cases, get_or, leb, leb→le,
  Map, get, one, all, includes,
}
use asterim.Pipeline.Graph.{Left, pos, release_dependents, take_next, walk}
use asterim.Pipeline.Prepared.{times, times-append, listed}
use asterim.Pipeline.Fuel.{walk_at}
use asterim.Pipeline.Release.{
  missing, missing-append, missing-all, release-times, Released, released, release-Released,
}

-- Each text of the list has all its dependencies among those before it.
abbrev pub Follows : Map (List String) → List String → List String → Type 0
Follows table before [] = Unit
Follows table before (a ∷ rest) =
    (all (λ d. includes d before) (listed a table) ≡ true) × Follows table (before ++ a ∷ []) rest

Follows-append :
    (table : Map (List String)) (before xs : List String) (a : String)
    → Follows table before xs
    → all (λ d. includes d (before ++ xs)) (listed a table) ≡ true
    → Follows table before (xs ++ a ∷ [])
Follows-append table before [] a h e = (rw (append-nil before) at e, tt)
Follows-append table before (x ∷ xs) a (first, h) e =
    (first, Follows-append table (before ++ x ∷ []) xs a h (rw (append_assoc before (x ∷ []) xs) e))

module _ (table dependents : Map (List String))
    (mirrored : (a x : String) → times a (listed x dependents) ≡ times x (listed a table)) where
  -- The loop's invariant.
  pub data Inv (m : Map Left) (queue order : List String) : Type 0 where
    inv :
        ((a : String) (ds : List String)
          → get a table ≡ some ds
          → get a m ≡ some (pos (missing ds order)))
        → ((a : String) (ds : List String)
            → get a table ≡ some ds
            → 1 ≤ times a queue + times a order
            → missing ds order ≡ 0)
        → ((a : String) → times a queue + times a order ≤ 1)
        → Follows table [] order
        → ((a : String) (ds : List String)
            → get a table ≡ some ds
            → (1 ≤ times a queue + times a order) ⊎ (1 ≤ missing ds order))
        → Inv m queue order

  listed_at : (a : String) (ds : List String) → get a table ≡ some ds → listed a table ≡ ds
  listed_at a ds h = ap (λ o. get_or o []) h

  -- What a turn does to one step.
  turn :
      (m : Map Left) (x : String) (rest order : List String) (a : String) (ds : List String)
      → Inv m (x ∷ rest) order
      → get a table ≡ some ds
      → Released a (missing ds order) (listed x dependents) m
  turn m x rest order a ds (inv waits ready once sorted held) h =
      release-Released a (missing ds order) (listed x dependents) m (waits a ds h) (
        omega
          (arith, mirrored a x, ap (times x) (listed_at a ds h), missing-append x ds order fresh))
    where
      fresh : times x order ≡ 0
      fresh = omega (arith, once x, ap one (str_eq_refl x))

  turn-waits :
      (m : Map Left) (x : String) (rest order : List String) (a : String) (ds : List String)
      → Inv m (x ∷ rest) order
      → get a table ≡ some ds
      → get a (release_dependents (listed x dependents) m).0
        ≡ some (pos (missing ds (order ++ x ∷ [])))
  turn-waits m x rest order a ds (inv waits ready once sorted held) h =
      elim (turn m x rest order a ds (inv waits ready once sorted held) h) [
        | released n' g sum single le last full ↦
            let fresh : times x order ≡ 0 = omega (arith, once x, ap one (str_eq_refl x)) in
            let n_is : n' ≡ missing ds (order ++ x ∷ []) = omega (
              arith,
              mirrored a x,
              ap (times x) (listed_at a ds h),
              missing-append x ds order fresh,
            ) in
            g ∙ ap (λ n. some (pos n)) n_is
      ]

  turn-ready :
      (m : Map Left) (x : String) (rest order : List String) (a : String) (ds : List String)
      → Inv m (x ∷ rest) order
      → get a table ≡ some ds
      → 1
        ≤ times a (rest ++ (release_dependents (listed x dependents) m).1)
          + times a (order ++ x ∷ [])
      → missing ds (order ++ x ∷ []) ≡ 0
  turn-ready m x rest order a ds (inv waits ready once sorted held) h there =
      elim (turn m x rest order a ds (inv waits ready once sorted held) h) [
        | released n' g sum single le last full ↦
            let fresh : times x order ≡ 0 = omega (arith, once x, ap one (str_eq_refl x)) in
            let fewer = missing-append x ds order fresh in
            elim last [
              | inr z ↦ omega (arith, mirrored a x, ap (times x) (listed_at a ds h), fewer)
              | inl z ↦
                  let stood : 1 ≤ times a (x ∷ rest) + times a order = omega (
                    arith,
                    times-append a rest (release_dependents (listed x dependents) m).1,
                    times-append a order (x ∷ []),
                  ) in
                  omega (arith, ready a ds h stood, fewer)
            ]
      ]

  turn-once :
      (m : Map Left) (x : String) (rest order : List String) (a : String)
      → Inv m (x ∷ rest) order
      → times a (rest ++ (release_dependents (listed x dependents) m).1) + times a (order ++ x ∷ [])
        ≤ 1
  turn-once m x rest order a (inv waits ready once sorted held) =
      let pushed : List String = (release_dependents (listed x dependents) m).1 in
      elim (Option-cases (get a table)) [
        | inl e ↦ omega (
          arith,
          once a,
          times-append a rest pushed,
          times-append a order (x ∷ []),
          release-times a (listed x dependents) m,
          mirrored a x,
          ap (λ o. times x (get_or o [])) e,
        )
        | inr (ds, e) ↦ elim (turn m x rest order a ds (inv waits ready once sorted held) e) [
          | released n' g sum single le last full ↦
              elim (Bool-cases (leb 1 (times a (x ∷ rest) + times a order))) [
                | inl stood ↦ omega (
                  arith,
                  once a,
                  times-append a rest pushed,
                  times-append a order (x ∷ []),
                  ready a ds e (leb→le 1 (times a (x ∷ rest) + times a order) stood),
                )
                | inr absent ↦
                    let none_yet : times a (x ∷ rest) + times a order ≡ 0 = ground arith in
                    omega
                      (arith, none_yet, times-append a rest pushed, times-append a order (x ∷ []))
              ]
        ]
      ]

  turn-Follows :
      (m : Map Left) (x : String) (rest order : List String)
      → Inv m (x ∷ rest) order
      → Follows table [] (order ++ x ∷ [])
  turn-Follows m x rest order (inv waits ready once sorted held) =
      Follows-append table [] order x sorted (elim (Option-cases (get x table)) [
        | inl e ↦ rw e refl
        | inr (ds, e) ↦
            rw e (missing-all ds order (ready x ds e (omega (arith, ap one (str_eq_refl x)))))
      ])

  turn-held :
      (m : Map Left) (x : String) (rest order : List String) (a : String) (ds : List String)
      → Inv m (x ∷ rest) order
      → get a table ≡ some ds
      → (1
          ≤ times a (rest ++ (release_dependents (listed x dependents) m).1)
            + times a (order ++ x ∷ []))
        ⊎ (1 ≤ missing ds (order ++ x ∷ []))
  turn-held m x rest order a ds (inv waits ready once sorted held) h =
      let pushed : List String = (release_dependents (listed x dependents) m).1 in
      let joined = times-append a rest pushed in
      let longer = times-append a order (x ∷ []) in
      elim (turn m x rest order a ds (inv waits ready once sorted held) h) [
        | released n' g sum single le last full ↦
            let fresh : times x order ≡ 0 = omega (arith, once x, ap one (str_eq_refl x)) in
            let n_is : n' ≡ missing ds (order ++ x ∷ []) = omega (
              arith,
              mirrored a x,
              ap (times x) (listed_at a ds h),
              missing-append x ds order fresh,
            ) in
            elim full [
              | inl z ↦ inr (omega (arith, z, n_is))
              | inr (inr z) ↦ inl (omega (arith, z, joined, longer))
              | inr (inl z) ↦ elim (held a ds h) [
                | inl stood ↦ inl (omega (arith, stood, joined, longer))
                | inr more ↦ absurd (omega (arith, more, z))
              ]
            ]
      ]

  take_next-Inv :
      (m : Map Left) (x : String) (rest order : List String)
      → Inv m (x ∷ rest) order
      → Inv
          (release_dependents (listed x dependents) m).0
          (rest ++ (release_dependents (listed x dependents) m).1)
          (order ++ x ∷ [])
  take_next-Inv m x rest order h =
      inv (λ a ds e. turn-waits m x rest order a ds h e)
        (λ a ds e l. turn-ready m x rest order a ds h e l) (λ a. turn-once m x rest order a h)
        (turn-Follows m x rest order h) (λ a ds e. turn-held m x rest order a ds h e)

  pub walk-Follows :
      (n : ℕ) (m : Map Left) (queue order : List String)
      → Inv m queue order
      → Follows table [] (walk n dependents (walk_at m queue order)).order
        × ((a : String) → times a (walk n dependents (walk_at m queue order)).order ≤ 1)
  unfolding walk take_next
  walk-Follows zero m queue order (inv waits ready once sorted held) =
      (sorted, λ a. omega (arith, once a))
  walk-Follows (suc n) m [] order (inv waits ready once sorted held) =
      (sorted, λ a. omega (arith, once a))
  walk-Follows (suc n) m (x ∷ rest) order h = walk-Follows n _ _ _ (take_next-Inv m x rest order h)

  -- Once the queue is empty, a step that is not in the order misses a dependency.
  pub walk-held :
      (n : ℕ) (m : Map Left) (queue order : List String)
      → Inv m queue order
      → (walk n dependents (walk_at m queue order)).queue ≡ []
      → (a : String) (ds : List String) → get a table ≡ some ds
      → (1 ≤ times a (walk n dependents (walk_at m queue order)).order)
        ⊎ (1 ≤ missing ds (walk n dependents (walk_at m queue order)).order)
  unfolding walk take_next
  walk-held zero m queue order (inv waits ready once sorted held) ended a ds h =
      elim (held a ds h) [
        | inl stood ↦ inl (omega (arith, stood, ap (times a) ended))
        | inr more ↦ inr more
      ]
  walk-held (suc n) m [] order (inv waits ready once sorted held) ended a ds h =
      elim (held a ds h) [ inl stood ↦ inl (omega (arith, stood)) | inr more ↦ inr more ]
  walk-held (suc n) m (x ∷ rest) order h ended a ds e =
      walk-held n _ _ _ (take_next-Inv m x rest order h) ended a ds e
