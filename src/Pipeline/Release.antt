-- ===== src/Pipeline/Release.antt =====
-- What one turn of the loop of `topologicalPipelineOrder` does to the steps that wait.
use asterim.Prelude.{
  ℕ, zero, suc, ◌+◌, ◌≤◌, ◌≡◌, refl, sym, ap, ◌∙◌, subst, arith, ◌⊎◌, inl, inr, String, Bool, true,
  false, not, ◌||◌, some, List, [], ◌∷◌, ◌++◌, if◌then◌else◌, str_eq, str_eq_refl, str_eq_comm,
  str_eq-cases, Bool-cases, get_or, Map, get, put, get-put, get-put_self, one, all, includes,
}
use asterim.Pipeline.Graph.{Left, pos, one_less, is_zero, release_dependents}
use asterim.Pipeline.Prepared.{times}

-- How many of the dependencies have not been ordered yet.
abbrev pub missing : List String → List String → ℕ
missing [] order = 0
missing (d ∷ ds) order = one (not (includes d order)) + missing ds order

or_false : (b : Bool) → b || false ≡ b
or_false true = refl
or_false false = refl

or_assoc : (a b c : Bool) → a || (b || c) ≡ (a || b) || c
or_assoc true b c = refl
or_assoc false b c = refl

includes-append :
    (d x : String) (order : List String)
    → includes d (order ++ x ∷ []) ≡ includes d order || str_eq d x
includes-append d x [] = or_false (str_eq d x)
includes-append d x (y ∷ order) =
    ap (λ b. str_eq d y || b) (includes-append d x order)
    ∙ or_assoc (str_eq d y) (includes d order) (str_eq d x)

includes-times : (d : String) (order : List String) → times d order ≡ 0 → includes d order ≡ false
includes-times d [] h = refl
includes-times d (y ∷ order) h = elim (str_eq-cases y d) [
  | inl same ↦ absurd (omega (arith, rw (same, str_eq_refl d) at h))
  | inr other ↦
      let rest : times d order ≡ 0 = omega (arith, rw other at h) in
      rw (str_eq_comm d y, other) (includes-times d order rest)
]

pub missing-append :
    (x : String) (ds order : List String)
    → times x order ≡ 0
    → missing ds (order ++ x ∷ []) + times x ds ≡ missing ds order
missing-append x [] order h = omega arith
missing-append x (d ∷ ds) order h = elim (str_eq-cases d x) [
  | inl same ↦
      let before : includes d order ≡ false =
        subst (λ k. includes k order ≡ false) (sym same) (includes-times x order h) in
      let after : includes d (order ++ x ∷ []) ≡ true =
        includes-append d x order ∙ rw (before, same, str_eq_refl x) refl in
      let here : str_eq d x ≡ true = rw (same, str_eq_refl x) refl in
      rw (before, after, here) (omega (arith, missing-append x ds order h))
  | inr other ↦
      let after : includes d (order ++ x ∷ []) ≡ includes d order =
        includes-append d x order ∙ rw other (or_false (includes d order)) in
      rw (after, other) (omega (arith, missing-append x ds order h))
]

pub missing-all :
    (ds order : List String) → missing ds order ≡ 0 → all (λ d. includes d order) ds ≡ true
missing-all [] order h = refl
missing-all (d ∷ ds) order h = elim (Bool-cases (includes d order)) [
  | inl e ↦ rw e (missing-all ds order (omega (arith, rw e at h)))
  | inr e ↦ absurd (omega (arith, rw e at h))
]

pub release-times :
    (a : String) (ids : List String) (m : Map Left)
    → times a (release_dependents ids m).1 ≤ times a ids
unfolding release_dependents
release-times a [] m = omega arith
release-times a (b ∷ ids) m =
    let n = one_less (get_or (get b m) (pos 0)) in
    elim (Bool-cases (is_zero n)) [
      | inl e ↦ rw e (omega (arith, release-times a ids (put b n m)))
      | inr e ↦ rw e (omega (arith, release-times a ids (put b n m)))
    ]

-- A step that waits for `n` and stands `k ≤ n` times among the released waits for `n - k` after, and is
-- pushed at most once, and only if that is none, and then it is pushed, unless `n` was none too.
pub data Released (a : String) (n : ℕ) (ids : List String) (m : Map Left) : Type 0 where
  released :
      (n' : ℕ)
      → get a (release_dependents ids m).0 ≡ some (pos n')
      → n' + times a ids ≡ n
      → times a (release_dependents ids m).1 ≤ 1
      → times a (release_dependents ids m).1 ≤ n
      → (times a (release_dependents ids m).1 ≡ 0) ⊎ (n' ≡ 0)
      → (1 ≤ n') ⊎ ((n ≡ 0) ⊎ (1 ≤ times a (release_dependents ids m).1))
      → Released a n ids m

-- The first of the released, apart from the rest.
release_first :
    (b : String) (ids : List String) (m : Map Left) (n : Left)
    → one_less (get_or (get b m) (pos 0)) ≡ n
    → release_dependents (b ∷ ids) m ≡ (
      (release_dependents ids (put b n m)).0,
      if is_zero n
          then b ∷ (release_dependents ids (put b n m)).1
          else (release_dependents ids (put b n m)).1,
    )
unfolding release_dependents
release_first b ids m n e = rw e refl

own_release :
    (a : String) (k : ℕ) (ids : List String) (m : Map Left)
    → get a m ≡ some (pos (suc k))
    → Released a k ids (put a (pos k) m)
    → Released a (suc k) (a ∷ ids) m
own_release a zero ids m there (released n' g sum once le last full) =
    let first = release_first a ids m (pos zero) (rw there refl) in
    let others : List String = (release_dependents ids (put a (pos zero) m)).1 in
    let doubled : times a (a ∷ others) ≡ suc (times a others) = rw (str_eq_refl a) (omega arith) in
    let pushed : times a (release_dependents (a ∷ ids) m).1 ≡ 1 =
      omega (arith, ap (λ r. times a r.1) first, doubled, le) in
    let self : times a (a ∷ ids) ≡ suc (times a ids) = rw (str_eq_refl a) (omega arith) in
    released n' (ap (λ r. get a r.0) first ∙ g) (omega arith) (omega arith) (omega arith)
      (inr (omega arith)) (inr (inr (omega arith)))
own_release a (suc j) ids m there (released n' g sum once le last full) =
    let first = release_first a ids m (pos (suc j)) (rw there refl) in
    let pushed : times a (release_dependents (a ∷ ids) m).1
        ≡ times a (release_dependents ids (put a (pos (suc j)) m)).1 =
      ap (λ r. times a r.1) first in
    let self : times a (a ∷ ids) ≡ suc (times a ids) = rw (str_eq_refl a) (omega arith) in
    released n' (ap (λ r. get a r.0) first ∙ g) (omega arith) (omega arith) (omega arith)
      (elim last [ inl z ↦ inl (pushed ∙ z) | inr z ↦ inr z ])
      (elim full [
        | inl z ↦ inl z
        | inr (inl z) ↦ absurd (omega (arith, z))
        | inr (inr z) ↦ inr (inr (omega (arith, pushed, z)))
      ])

other_release :
    (a b : String) (n : ℕ) (left : Left) (ids : List String) (m : Map Left)
    → str_eq b a ≡ false
    → one_less (get_or (get b m) (pos 0)) ≡ left
    → Released a n ids (put b left m)
    → Released a n (b ∷ ids) m
other_release a b n left ids m other e (released n' g sum once le last full) =
    let first = release_first b ids m left e in
    let pushed : times a (release_dependents (b ∷ ids) m).1
        ≡ times a (release_dependents ids (put b left m)).1 =
      ap (λ r. times a r.1) first
      ∙ same_times (is_zero left) (release_dependents ids (put b left m)).1 in
    let self : times a (b ∷ ids) ≡ times a ids = rw other (omega arith) in
    released n' (ap (λ r. get a r.0) first ∙ g) (omega arith) (omega arith) (omega arith)
      (elim last [ inl z ↦ inl (pushed ∙ z) | inr z ↦ inr z ])
      (elim full [
        | inl z ↦ inl z
        | inr (inl z) ↦ inr (inl z)
        | inr (inr z) ↦ inr (inr (omega (arith, pushed, z)))
      ])
  where
    same_times : (z : Bool) (xs : List String) → times a (if z then b ∷ xs else xs) ≡ times a xs
    same_times true xs = rw other (omega arith)
    same_times false xs = refl

some_or_none : (n : ℕ) {k : ℕ} → (1 ≤ n) ⊎ ((n ≡ 0) ⊎ (1 ≤ k))
some_or_none zero = inr (inl refl)
some_or_none (suc n) = inl (omega arith)

pub release-Released :
    (a : String) (n : ℕ) (ids : List String) (m : Map Left)
    → get a m ≡ some (pos n)
    → times a ids ≤ n
    → Released a n ids m
unfolding release_dependents
release-Released a n [] m there h =
    released n there (omega arith) (omega arith) (omega arith) (inl refl) (some_or_none n)
release-Released a zero (b ∷ ids) m there h = elim (str_eq-cases b a) [
  | inl same ↦ absurd (omega (arith, rw (same, str_eq_refl a) at h))
  | inr other ↦ other_release a b zero _ ids m other refl (
      release-Released a zero ids _ (get-put a b _ m ∙ rw other there)
        (omega (arith, rw other at h)))
]
release-Released a (suc k) (b ∷ ids) m there h = elim (str_eq-cases b a) [
  | inl same ↦
      subst (λ c. Released a (suc k) (c ∷ ids) m) (sym same)
        (own_release a k ids m there (
          release-Released a k ids (put a (pos k) m) (get-put_self a (pos k) m)
            (omega (arith, rw (same, str_eq_refl a) at h))))
  | inr other ↦ other_release a b (suc k) _ ids m other refl (
      release-Released a (suc k) ids _ (get-put a b _ m ∙ rw other there)
        (omega (arith, rw other at h)))
]
