-- ===== src/Engine/Ready.antt =====
-- The steps that are ready, and that some step is while one is left.
use asterim.Prelude.{
  ℕ, zero, suc, ◌≡◌, refl, sym, ◌∙◌, subst, ◌⊎◌, inl, inr, String, Bool, true, false, ◌||◌, some,
  List, [], ◌∷◌, ◌++◌, str_eq, str_eq_refl, str_eq-cases, Bool-cases, take, any, all, keep,
  includes, includes-append, All, Map, get,
}
use asterim.Pipeline.Graph.{StepStatus, pending, passed, PipelineStep, is_passed, is_ready, ids_of}
use asterim.Engine.Loop.{find_steps}
use asterim.Engine.Dispatch.{find_step}
use asterim.Engine.Changes.{step_is}

-- Every step comes after its dependencies, and no id comes twice.
abbrev pub Staged : List String → List PipelineStep → Type 0
Staged before [] = Unit
Staged before (s ∷ ss) =
    (all (λ d. includes d before) s.depends_on ≡ true)
    × (includes s.id before ≡ false)
    × Staged (before ++ s.id ∷ []) ss

-- The later steps have other ids.
Staged-apart :
    (before : List String) (ss : List PipelineStep) (b : String)
    → Staged before ss
    → includes b before ≡ true
    → All (λ t. str_eq b t.id ≡ false) ss
Staged-apart before [] b h there = tt
Staged-apart before (s ∷ ss) b (deps, fresh, h) there = (
  elim (str_eq-cases b s.id) [
    | inr other ↦ other
    | inl same ↦
        let bad : includes s.id before ≡ true = subst (λ k. includes k before ≡ true) same there in
        absurd (cc)
  ],
  Staged-apart (before ++ s.id ∷ []) ss b h (includes-append b before (s.id ∷ []) ∙ rw there refl),
)

-- A step is found under its id.
pub Staged-found :
    (before : List String) (ss : List PipelineStep)
    → Staged before ss
    → All (λ s. find_step s.id ss ≡ some s) ss
unfolding find_step
Staged-found before [] h = tt
Staged-found before (s ∷ ss) (deps, fresh, h) = (
  rw (str_eq_refl s.id) refl,
  later ss
      (Staged-apart (before ++ s.id ∷ []) ss s.id h
        (includes-append s.id before (s.id ∷ []) ∙ last (includes s.id before)))
      (Staged-found (before ++ s.id ∷ []) ss h),
)
  where
    last : (b : Bool) → b || includes s.id (s.id ∷ []) ≡ true
    last true = refl
    last false = rw (str_eq_refl s.id) refl

    later :
        (ts : List PipelineStep)
        → All (λ t. str_eq s.id t.id ≡ false) ts
        → All (λ t. find_step t.id ss ≡ some t) ts
        → All (λ t. find_step t.id (s ∷ ss) ≡ some t) ts
    later [] a f = tt
    later (t ∷ ts) (apart, a) (found, f) = (rw apart found, later ts a f)

all-passed :
    (m : Map StepStatus) (before ds : List String)
    → ((d : String) → includes d before ≡ true → get d m ≡ some passed)
    → all (λ d. includes d before) ds ≡ true
    → all (λ d. is_passed (get d m)) ds ≡ true
all-passed m before [] sub h = refl
all-passed m before (d ∷ ds) sub h = elim (Bool-cases (includes d before)) [
  | inr bad ↦ absurd (let b : false ≡ true = rw bad at h in cc)
  | inl good ↦ rw (sub d good) (all-passed m before ds sub (rw good at h))
]

-- When no step is ready, every step has passed.
pub none_ready :
    (m : Map StepStatus) (before : List String) (ss : List PipelineStep)
    → Staged before ss
    → ((d : String) → includes d before ≡ true → get d m ≡ some passed)
    → All (λ s. (get s.id m ≡ some pending) ⊎ (get s.id m ≡ some passed)) ss
    → keep (is_ready m) ss ≡ []
    → (k : String) → any (step_is k) ss ≡ true
    → get k m ≡ some passed
none_ready m before [] h sub waits idle k own = absurd (cc)
none_ready m before (s ∷ ss) (deps, fresh, h) sub (wait, waits) idle k own = elim wait [
  | inl e ↦
      let ready : is_ready m s ≡ true = rw e (all-passed m before s.depends_on sub deps) in
      absurd (let bad : s ∷ keep (is_ready m) ss ≡ [] = rw ready at idle in cc)
  | inr e ↦
      let unready : is_ready m s ≡ false = rw e refl in
      elim (str_eq-cases s.id k) [
        | inl here ↦ subst (λ j. get j m ≡ some passed) here e
        | inr other ↦
            none_ready m (before ++ s.id ∷ []) ss h
              (λ d there.
                elim (or_cases (includes d before) (includes d (s.id ∷ []))
                  (sym (includes-append d before (s.id ∷ [])) ∙ there)) [
                    | inl old ↦ sub d old
                    | inr new ↦ elim (str_eq-cases d s.id) [
                      | inl same ↦ subst (λ j. get j m ≡ some passed) (sym same) e
                      | inr differs ↦ absurd (let bad : false ≡ true = rw differs at new in cc)
                    ]
                  ])
              waits (rw unready at idle) k (rw other at own)
      ]
]
  where
    or_cases : (a b : Bool) → a || b ≡ true → (a ≡ true) ⊎ (b ≡ true)
    or_cases true b e = inl refl
    or_cases false b e = inr e

-- What is known of the steps that are looked up by the first ids of a list of steps.
pub found_steps :
    (P : PipelineStep → Type 0) (steps : List PipelineStep) (n : ℕ) (ts : List PipelineStep)
    → All (λ t. (find_step t.id steps ≡ some t) × P t) ts
    → All P (find_steps (take n (ids_of ts)) steps)
unfolding find_steps
found_steps P steps zero ts h = tt
found_steps P steps (suc n) [] h = tt
found_steps P steps (suc n) (t ∷ ts) ((found, p), h) = rw found (p, found_steps P steps n ts h)

pub found_some :
    (steps : List PipelineStep) (n : ℕ) (ts : List PipelineStep)
    → All (λ t. find_step t.id steps ≡ some t) ts
    → find_steps (take (suc n) (ids_of ts)) steps ≡ []
    → ts ≡ []
unfolding find_steps
found_some steps n [] h e = refl
found_some steps n (t ∷ ts) (found, h) e =
    absurd (let bad : t ∷ find_steps (take n (ids_of ts)) steps ≡ [] = rw found at e in cc)

-- A step of the batch: it is a step, is found under its id, and is ready.
abbrev pub IsNext : List PipelineStep → Map StepStatus → PipelineStep → Type 0
IsNext steps m t =
    (any (step_is t.id) steps ≡ true) × (find_step t.id steps ≡ some t) × (is_ready m t ≡ true)

pub keep-All :
    (p : PipelineStep → Bool) (P : PipelineStep → Type 0) (ss : List PipelineStep)
    → All P ss
    → All (λ s. P s × (p s ≡ true)) (keep p ss)
keep-All p P [] h = tt
keep-All p P (s ∷ ss) (first, h) = elim (Bool-cases (p s)) [
  | inl e ↦ rw e ((first, e), keep-All p P ss h)
  | inr e ↦ rw e (keep-All p P ss h)
]

pub own_steps : (ss : List PipelineStep) → All (λ s. any (step_is s.id) ss ≡ true) ss
own_steps [] = tt
own_steps (s ∷ ss) = (rw (str_eq_refl s.id) refl, weaken ss (own_steps ss))
  where
    or_last : (a : Bool) {b : Bool} → b ≡ true → a || b ≡ true
    or_last true e = refl
    or_last false e = e

    weaken :
        (ts : List PipelineStep)
        → All (λ t. any (step_is t.id) ss ≡ true) ts
        → All (λ t. any (step_is t.id) (s ∷ ss) ≡ true) ts
    weaken [] h = tt
    weaken (t ∷ ts) (own, h) = (or_last (str_eq s.id t.id) own, weaken ts h)
