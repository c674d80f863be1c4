-- ===== src/Pipeline/Ancestors/Collected.antt =====
-- What `collect` collects.
use asterim.Prelude.{
  ℕ, zero, suc, ◌+◌, ◌≤◌, ◌<◌, ◌≡◌, ◌↔◌, refl, sym, ◌∙◌, subst, arith, ◌⊎◌, inl, inr, String, Bool,
  true, false, not, ◌||◌, Option, none, some, List, [], ◌∷◌, ◌++◌, str_eq, str_eq_refl,
  str_eq-cases, Bool-cases, get_or, length, includes, includes-append, IsKeyed, one,
}
use asterim.Pipeline.Graph.{PipelineStep, ids_of, topological_pipeline_order}
use asterim.Pipeline.Ordered.{dependency_table}
use asterim.Pipeline.Cycle.{has_step}
use asterim.Pipeline.Cycle.Found.{or_right, or_either, Edge, dependencies}
use asterim.Pipeline.Cycle.Tables.{has_step-includes, kept_in}
use asterim.Pipeline.Cycle.Counted.{topological_pipeline_order-full, order_walked, times-includes}
use asterim.Pipeline.Complete.{kept_text}
use asterim.Pipeline.Prepared.{times}
use asterim.Pipeline.Ancestors.{collect_each, collect, ancestors, pipeline_ancestor_ids}

-- Step `b` is what step `a` depends on, over any number of steps.
pub data Reaches (steps : List PipelineStep) : String → String → Type 0 where
  direct : (a b : String) → Edge steps a b → Reaches steps a b
  onward : (a b c : String) → Edge steps a b → Reaches steps b c → Reaches steps a c

-- How many steps have not been seen.
unseen : List PipelineStep → List String → ℕ
unseen [] seen = 0
unseen (s ∷ ss) seen = one (not (includes s.id seen)) + unseen ss seen

abbrev Grows : List String → List String → Type 0
Grows xs ys = (k : String) → includes k xs ≡ true → includes k ys ≡ true

unseen-le :
    (ss : List PipelineStep) (xs ys : List String) → Grows xs ys → unseen ss ys ≤ unseen ss xs
unfolding unseen
unseen-le [] xs ys h = omega arith
unseen-le (s ∷ ss) xs ys h = elim (Bool-cases (includes s.id xs)) [
  | inl e ↦ rw (e, h s.id e) (omega (arith, unseen-le ss xs ys h))
  | inr e ↦ rw e (omega (arith, unseen-le ss xs ys h, fewer (includes s.id ys)))
]
  where
    fewer : (b : Bool) → one (not b) ≤ 1
    fewer true = omega arith
    fewer false = omega arith

added :
    (k d : String) (xs : List String)
    → includes k (xs ++ d ∷ []) ≡ true
    → (includes k xs ≡ true) ⊎ (k ≡ d)
added k d xs h =
    elim (or_either (includes k xs) (includes k (d ∷ []))
      (sym (includes-append k xs (d ∷ [])) ∙ h)) [
        | inl old ↦ inl old
        | inr new ↦ elim (str_eq-cases k d) [
          | inl same ↦ inr same
          | inr other ↦ absurd (let bad : false ≡ true = rw other at new in cc)
        ]
      ]

added-Grows : (d : String) (xs : List String) → Grows xs (xs ++ d ∷ [])
added-Grows d xs k h = includes-append k xs (d ∷ []) ∙ rw h refl

added_last : (d : String) (xs : List String) → includes d (xs ++ d ∷ []) ≡ true
added_last d xs = includes-append d xs (d ∷ []) ∙ or_right (includes d xs) (rw (str_eq_refl d) refl)

-- A step that is seen for the first time is one less to see.
unseen-lt :
    (ss : List PipelineStep) (d : String) (xs : List String)
    → includes d (ids_of ss) ≡ true
    → includes d xs ≡ false
    → unseen ss (xs ++ d ∷ []) < unseen ss xs
unfolding unseen
unseen-lt [] d xs own new = absurd (cc)
unseen-lt (s ∷ ss) d xs own new = elim (str_eq-cases d s.id) [
  | inl same ↦
      let before : includes s.id xs ≡ false = subst (λ k. includes k xs ≡ false) same new in
      let after : includes s.id (xs ++ d ∷ []) ≡ true =
        subst (λ k. includes k (xs ++ d ∷ []) ≡ true) same (added_last d xs) in
      rw (before, after) (omega (arith, unseen-le ss xs (xs ++ d ∷ []) (added-Grows d xs)))
  | inr other ↦
      let rest = unseen-lt ss d xs (rw other at own) new in
      elim (Bool-cases (includes s.id xs)) [
        | inl e ↦ rw (e, added-Grows d xs s.id e) (omega (arith, rest))
        | inr e ↦ rw e (omega (arith, rest, fewer (includes s.id (xs ++ d ∷ []))))
      ]
]
  where
    fewer : (b : Bool) → one (not b) ≤ 1
    fewer true = omega arith
    fewer false = omega arith

module _ (steps : List PipelineStep) where
  -- All that `k` depends on directly has been seen.
  abbrev Closed : List String → String → Type 0
  Closed seen k = (d : String) → Edge steps k d → includes d seen ≡ true

  -- What a call for `id` makes of what was seen before.
  record Collects (id : String) (seen out : List String) : Type 0 where
    grows : Grows seen out
    sound : (k : String) → includes k out ≡ true → (includes k seen ≡ true) ⊎ Reaches steps id k
    own : Closed out id
    closed : (k : String) → includes k out ≡ true → (includes k seen ≡ true) ⊎ Closed out k

  -- What the loop over `ds` makes of it.
  record CollectsEach (id : String) (ds seen out : List String) : Type 0 where
    grows : Grows seen out
    sound : (k : String) → includes k out ≡ true → (includes k seen ≡ true) ⊎ Reaches steps id k
    own : (d : String) → includes d ds ≡ true → has_step d steps ≡ true → includes d out ≡ true
    closed : (k : String) → includes k out ≡ true → (includes k seen ≡ true) ⊎ Closed out k

  -- One dependency, and then the others.
  each_next :
      (id d : String) (ds seen mid out : List String)
      → Grows seen mid
      → ((k : String) → includes k mid ≡ true → (includes k seen ≡ true) ⊎ Reaches steps id k)
      → (has_step d steps ≡ true → includes d mid ≡ true)
      → ((k : String) → includes k mid ≡ true → (includes k seen ≡ true) ⊎ Closed mid k)
      → CollectsEach id ds mid out
      → CollectsEach id (d ∷ ds) seen out
  each_next id d ds seen mid out grows sound own closed rest = record {
    grows = λ k e. rest.grows k (grows k e);
    sound = λ k e. elim (rest.sound k e) [ inl there ↦ sound k there | inr reached ↦ inr reached ];
    own = λ k e is_step. elim (str_eq-cases k d) [
      | inl same ↦ rest.grows k (
          subst (λ j. includes j mid ≡ true) (sym same)
            (own (subst (λ j. has_step j steps ≡ true) same is_step)))
      | inr other ↦ rest.own k (rw other at e) is_step
    ];
    closed = λ k e. elim (rest.closed k e) [
      | inr all_seen ↦ inr all_seen
      | inl there ↦ elim (closed k there) [
        | inl before ↦ inl before
        | inr all_seen ↦ inr (λ j edge. rest.grows j (all_seen j edge))
      ]
    ];
  }

  module _ (again : String → List String → List String) (n : ℕ)
      (calls : (id : String) (seen : List String)
        → unseen steps seen < n
        → Collects id seen (again id seen)) where
    collect_each-CollectsEach :
        (id : String) (ds seen : List String)
        → ((d : String) → includes d ds ≡ true → includes d (dependencies steps id) ≡ true)
        → unseen steps seen < suc n
        → CollectsEach id ds seen (collect_each again steps ds seen)
    unfolding collect_each
    collect_each-CollectsEach id [] seen among few = record {
      grows = λ k e. e;
      sound = λ k e. inl e;
      own = λ d e is_step. absurd (cc);
      closed = λ k e. inl e;
    }
    collect_each-CollectsEach id (d ∷ ds) seen among few =
        elim (Bool-cases (not (has_step d steps) || includes d seen)) [
          | inl over ↦ rw over (
              each_next id d ds seen seen (collect_each again steps ds seen) (λ k e. e)
                (λ k e. inl e) (passed_over over) (λ k e. inl e)
                (collect_each-CollectsEach id ds seen rest_among few))
          | inr visited ↦
              let seen' : List String = seen ++ d ∷ [] in
              let mid : List String = again d seen' in
              let called = calls d seen' (omega (arith, few, shrinks visited)) in
              let grows : Grows seen mid = λ k e. called.grows k (added-Grows d seen k e) in
              let edge : Edge steps id d = (among d (rw (str_eq_refl d) refl), is_step visited) in
              rw visited (
                each_next id d ds seen mid (collect_each again steps ds mid) grows
                  (λ k e. elim (called.sound k e) [
                    | inr reached ↦ inr (onward id d k edge reached)
                    | inl there ↦ elim (added k d seen there) [
                      | inl before ↦ inl before
                      | inr same ↦ inr (direct id k (subst (λ j. Edge steps id j) (sym same) edge))
                    ]
                  ])
                  (λ e. called.grows d (added_last d seen))
                  (λ k e. elim (called.closed k e) [
                    | inr all_seen ↦ inr all_seen
                    | inl there ↦ elim (added k d seen there) [
                      | inl before ↦ inl before
                      | inr same ↦ inr (subst (Closed mid) (sym same) called.own)
                    ]
                  ])
                  (collect_each-CollectsEach id ds mid rest_among
                    (omega (arith, few, unseen-le steps seen mid grows))))
        ]
      where
        rest_among : (k : String) → includes k ds ≡ true → includes k (dependencies steps id) ≡ true
        rest_among k e = among k (or_right (str_eq k d) e)

        passed_over :
            not (has_step d steps) || includes d seen ≡ true
            → has_step d steps ≡ true
            → includes d seen ≡ true
        passed_over over e = rw e at over

        is_step : not (has_step d steps) || includes d seen ≡ false → has_step d steps ≡ true
        is_step visited = elim (Bool-cases (has_step d steps)) [
          | inl e ↦ e
          | inr e ↦ absurd (let bad : true ≡ false = rw e at visited in cc)
        ]

        shrinks :
            not (has_step d steps) || includes d seen ≡ false
            → unseen steps (seen ++ d ∷ []) < unseen steps seen
        shrinks visited =
            unseen-lt steps d seen (sym (has_step-includes d steps) ∙ is_step visited)
              (rw (is_step visited) at visited)

  -- Fuel that exceeds the number of unseen steps is enough.
  collect-Collects :
      (n : ℕ) (id : String) (seen : List String)
      → unseen steps seen < n
      → Collects id seen (collect n steps id seen)
  unfolding collect
  collect-Collects zero id seen few = absurd (omega arith)
  collect-Collects (suc n) id seen few =
      let each =
        collect_each-CollectsEach (collect n steps) n (λ i s l. collect-Collects n i s l) id
          (dependencies steps id) seen (λ d e. e) few in
      record {
        grows = each.grows;
        sound = each.sound;
        own = λ d edge. each.own d edge.0 edge.1;
        closed = each.closed;
      }

  unseen_all : (ss : List PipelineStep) → unseen ss [] ≤ length ss
  unfolding unseen
  unseen_all [] = omega arith
  unseen_all (s ∷ ss) = omega (arith, unseen_all ss)

  Reaches-has_step : (a b : String) → Reaches steps a b → has_step b steps ≡ true
  Reaches-has_step a b (direct x y edge) = edge.1
  Reaches-has_step a b (onward x y z edge further) = Reaches-has_step y z further

  -- Whatever is reached over closed steps has been seen.
  Reaches-seen :
      (seen : List String)
      → ((k : String) → includes k seen ≡ true → Closed seen k)
      → (a b : String) → Closed seen a
      → Reaches steps a b
      → includes b seen ≡ true
  Reaches-seen seen all_closed a b own (direct x y edge) = own y edge
  Reaches-seen seen all_closed a b own (onward x y z edge further) =
      Reaches-seen seen all_closed y z (all_closed y (own y edge)) further

  ancestors-Reaches :
      (id k : String) → (includes k (ancestors steps id) ≡ true) ↔ Reaches steps id k
  ancestors-Reaches id k =
      let collected =
        collect-Collects (suc (length steps)) id [] (omega (arith, unseen_all steps)) in
      (
        λ there. elim (collected.sound k there) [
          | inl nowhere ↦ absurd (cc)
          | inr reached ↦ reached
        ],
        λ reached.
            Reaches-seen (ancestors steps id)
              (λ j e. elim (collected.closed j e) [
                | inl nowhere ↦ absurd (cc)
                | inr all_seen ↦ all_seen
              ])
              id k collected.own reached,
      )

-- When no two steps share an id, `pipelineAncestorIds` returns exactly the steps that a step depends
-- on, over any number of steps, even if the steps have no order.
pub pipeline_ancestor_ids-Reaches :
    (steps : List PipelineStep) (id k : String)
    → IsKeyed (dependency_table steps)
    → (includes k (pipeline_ancestor_ids steps id) ≡ true) ↔ Reaches steps id k
unfolding pipeline_ancestor_ids
pipeline_ancestor_ids-Reaches steps id k keyed =
    let (to, from) = ancestors-Reaches steps id k in
    let order : List String = get_or (topological_pipeline_order steps) (ids_of steps) in
    (
      λ there. to (kept_text (λ j. includes j (ancestors steps id)) k order there).1,
      λ reached.
          kept_in (λ j. includes j (ancestors steps id)) k order
            (ordered (topological_pipeline_order steps) refl (Reaches-has_step steps id k reached))
            (from reached),
    )
  where
    ordered :
        (o : Option (List String))
        → topological_pipeline_order steps ≡ o
        → has_step k steps ≡ true
        → includes k (get_or o (ids_of steps)) ≡ true
    ordered none e is_step = sym (has_step-includes k steps) ∙ is_step
    ordered (some order) e is_step = times-includes k order (
        subst (λ xs. 1 ≤ times k xs) (order_walked steps order e)
          (topological_pipeline_order-full steps order k keyed e is_step))
