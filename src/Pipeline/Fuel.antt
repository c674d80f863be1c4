-- ===== src/Pipeline/Fuel.antt =====
-- The loop of `topologicalPipelineOrder` ends with an empty queue on the fuel that it is given.
use asterim.Prelude.{
  ℕ, zero, suc, ◌+◌, ◌≤◌, ◌≡◌, refl, arith, inl, inr, String, some, List, [], ◌∷◌, str_eq,
  Bool-cases, Option-cases, get_or, length, length-append, Map, get, put, one, count_values,
  count-put_new,
}
use asterim.Pipeline.Graph.{
  PipelineStep, Left, pos, below_zero, one_less, is_zero, is_positive, Walk, release_dependents,
  take_next, walk, fuel_of, Plan, plan_steps, first_walk, finished_walk, ids_of,
}

count-put_known :
    (k : String) (v w : Left) (m : Map Left)
    → get k m ≡ some w
    → count_values is_positive (put k v m) + one (is_positive w)
      ≡ count_values is_positive m + one (is_positive v)
unfolding get put
count-put_known k v w [] h = absurd (cc)
count-put_known k v w ((j, u) ∷ m) h = elim (Bool-cases (str_eq j k)) [
  | inl hit ↦ let same : u ≡ w = ground arith in rw (hit, same) (omega arith)
  | inr miss ↦ rw miss (omega (arith, count-put_known k v w m (rw miss at h)))
]

-- A step that comes to zero was above it.
one_less-fuel :
    (n : Left) → one (is_positive (one_less n)) + one (is_zero (one_less n)) ≤ one (is_positive n)
one_less-fuel (pos zero) = omega arith
one_less-fuel (pos (suc zero)) = omega arith
one_less-fuel (pos (suc (suc n))) = omega arith
one_less-fuel below_zero = omega arith

put-fuel :
    (a : String) (m : Map Left)
    → count_values is_positive (put a (one_less (get_or (get a m) (pos 0))) m)
        + one (is_zero (one_less (get_or (get a m) (pos 0))))
      ≤ count_values is_positive m
put-fuel a m = elim (Option-cases (get a m)) [
  | inl e ↦ rw e (omega (arith, count-put_new is_positive a below_zero m e))
  | inr (n, e) ↦ rw e (omega (arith, count-put_known a (one_less n) n m e, one_less-fuel n))
]

release-fuel :
    (ids : List String) (m : Map Left)
    → count_values is_positive (release_dependents ids m).0 + length (release_dependents ids m).1
      ≤ count_values is_positive m
unfolding release_dependents
release-fuel [] m = omega arith
release-fuel (a ∷ ids) m =
    let n = one_less (get_or (get a m) (pos 0)) in
    elim (Bool-cases (is_zero n)) [
      | inl e ↦ rw e (omega (arith, release-fuel ids (put a n m), rw e at (put-fuel a m)))
      | inr e ↦ rw e (omega (arith, release-fuel ids (put a n m), rw e at (put-fuel a m)))
    ]

take_next-fuel :
    (dependents : Map (List String)) (id : String) (rest : List String) (w : Walk)
    → fuel_of (take_next dependents id rest w) ≤ length rest + count_values is_positive w.waiting
unfolding take_next
take_next-fuel dependents id rest w =
    let ids = get_or (get id dependents) [] in
    omega
      (arith, release-fuel ids w.waiting, length-append rest (release_dependents ids w.waiting).1)

abbrev pub walk_at : Map Left → List String → List String → Walk
walk_at m queue order = record { waiting = m; queue = queue; order = order }

walk_ends :
    (n : ℕ) (dependents : Map (List String)) (m : Map Left) (queue order : List String)
    → fuel_of (walk_at m queue order) ≤ n
    → (walk n dependents (walk_at m queue order)).queue ≡ []
unfolding walk
walk_ends zero dependents m [] order h = refl
walk_ends zero dependents m (id ∷ rest) order h = absurd (omega arith)
walk_ends (suc n) dependents m [] order h = refl
walk_ends (suc n) dependents m (id ∷ rest) order h =
    let w : Walk = walk_at m (id ∷ rest) order in
    let next : Walk = take_next dependents id rest w in
    walk_ends n dependents next.waiting next.queue next.order
      (omega (arith, take_next-fuel dependents id rest w))

-- The plan of any list of steps is walked to its end: no step is left in the queue.
pub finished_walk-queue : (steps : List PipelineStep) → (finished_walk steps).queue ≡ []
unfolding finished_walk
finished_walk-queue steps =
    let p : Plan = plan_steps (ids_of steps) steps (record { outstanding = []; dependents = [] }) in
    let w : Walk = first_walk steps p in
    walk_ends (fuel_of w) p.dependents w.waiting w.queue w.order (omega arith)
