-- ===== src/Pipeline/Parser/Checked.antt =====
-- What `readSteps` refuses, and what the engine may rely on in what it accepts.
use asterim.Prelude.{
  ◌≤◌, ◌≡◌, refl, sym, ap, ◌∙◌, subst, arith, inl, inr, String, Bool, true, false, ◌&&◌, none, some,
  List, [], ◌∷◌, ◌++◌, append-nil, append_assoc, if◌then◌else◌, str_eq, str_eq_refl, str_eq_iff,
  str_eq-cases, Bool-cases, Option-cases, is_some, any, includes, IsKeyed, one, All,
}
use asterim.Pipeline.Graph.{PipelineStep, topological_pipeline_order, ids_of}
use asterim.Pipeline.Prepared.{times, times-append, table_of}
use asterim.Pipeline.Ordered.{dependency_table}
use asterim.Pipeline.Cycle.{by_id}
use asterim.Pipeline.Cycle.Found.{or_right, or_either, IsCycle}
use asterim.Pipeline.Cycle.Tables.{has_step-includes, table_absent}
use asterim.Pipeline.Parser.Values.{
  PipelineParseError, duplicate_id, self_dependency, unknown_dependency, dependency_cycle,
  unknown_role, Result, ok, refused, ◌>>=◌,
}
use asterim.Pipeline.Parser.Steps.{refuse_duplicates, Catalogue, resolves_to_profile}

-- What is returned has one property, and what is refused another.
pub data Judges {ℓ} {A : Type ℓ} (P : A → Type 0) (Q : PipelineParseError → Type 0)
    : Result A → Type ℓ where
  returns : {a : A} → P a → Judges P Q (ok a)
  refuses : {e : PipelineParseError} → Q e → Judges P Q (refused e)

module _ {Q : PipelineParseError → Type 0} where
  pub Judges-bind {ℓ κ} :
      {A : Type ℓ} {B : Type κ} {P : A → Type 0} {R : B → Type 0} {m : Result A} (f : A → Result B)
      → Judges P Q m
      → ((a : A) → P a → Judges R Q (f a))
      → Judges R Q (m >>= f)
  Judges-bind f (returns p) rule = rule _ p
  Judges-bind f (refuses q) rule = refuses q

pub Judges-if {ℓ} :
    {A : Type ℓ} {P : A → Type 0} {Q : PipelineParseError → Type 0} (b : Bool) {x y : Result A}
    → (b ≡ true → Judges P Q x)
    → (b ≡ false → Judges P Q y)
    → Judges P Q (if b then x else y)
Judges-if true f g = f refl
Judges-if false f g = g refl

pub Judges-mono {ℓ} :
    {A : Type ℓ} {P R : A → Type 0} {Q : PipelineParseError → Type 0} {r : Result A}
    → ((a : A) → P a → R a)
    → Judges P Q r
    → Judges R Q r
Judges-mono f (returns p) = returns (f _ p)
Judges-mono f (refuses q) = refuses q

pub Judges-ok {ℓ} :
    {A : Type ℓ} {P : A → Type 0} {Q : PipelineParseError → Type 0} {r : Result A} {a : A}
    → Judges P Q r
    → r ≡ ok a
    → P a
Judges-ok {P = P} {a = a} (returns {a = b} p) e = let same : b ≡ a = cc in subst P same p
Judges-ok (refuses q) e = absurd (cc)

pub Judges-refused {ℓ} :
    {A : Type ℓ} {P : A → Type 0} {Q : PipelineParseError → Type 0} {r : Result A}
    {e : PipelineParseError}
    → Judges P Q r
    → r ≡ refused e
    → Q e
Judges-refused (returns p) same = absurd (cc)
Judges-refused {Q = Q} {e = e} (refuses {e = d} q) same =
    let one_error : d ≡ e = cc in subst Q one_error q

-- Some step of that id has that dependency.
abbrev pub Depends : List PipelineStep → String → String → Type 0
Depends steps id d = any (λ s. str_eq s.id id && includes d s.depends_on) steps ≡ true

-- Every dependency of the step is another step.
abbrev pub HasSteps : List String → PipelineStep → Type 0
HasSteps ids s = All (λ d. (str_eq d s.id ≡ false) × (includes d ids ≡ true)) s.depends_on

module _ (lower : String → String) (catalogue : Catalogue) where
  abbrev pub resolves : String → Bool
  resolves role = resolves_to_profile lower catalogue role

  -- What a refusal says is so.
  abbrev pub IsReal : List PipelineStep → PipelineParseError → Type 0
  IsReal steps (duplicate_id id) = 2 ≤ times id (ids_of steps)
  IsReal steps (self_dependency id) = Depends steps id id
  IsReal steps (unknown_dependency id d) = Depends steps id d × (includes d (ids_of steps) ≡ false)
  IsReal steps (dependency_cycle path) = IsCycle steps path
  IsReal steps (unknown_role id role) =
      (any (λ s. str_eq s.id id && str_eq s.role_profile_id role) steps ≡ true)
      × (resolves role ≡ false)
  IsReal steps _ = ⊥

  pub record IsAccepted (validate_roles : Bool) (steps : List PipelineStep) : Type 0 where
    pub keyed : IsKeyed (dependency_table steps)
    pub linked : All (HasSteps (ids_of steps)) steps
    pub ordered : (order : List String) × (topological_pipeline_order steps ≡ some order)
    pub resolved : validate_roles ≡ true → All (λ s. resolves s.role_profile_id ≡ true) steps

times_of_includes : (d : String) (xs : List String) → includes d xs ≡ true → 1 ≤ times d xs
times_of_includes d [] h = absurd (cc)
times_of_includes d (x ∷ xs) h = elim (str_eq-cases d x) [
  | inl same ↦ omega (arith, ap one ((str_eq_iff x d).1 (sym same)))
  | inr other ↦ omega (arith, times_of_includes d xs (rw other at h))
]

includes-append_left :
    (d : String) (xs ys : List String) → includes d xs ≡ true → includes d (xs ++ ys) ≡ true
includes-append_left d [] ys h = absurd (cc)
includes-append_left d (x ∷ xs) ys h = elim (or_either (str_eq d x) (includes d xs) h) [
  | inl here ↦ rw here refl
  | inr later ↦ or_right (str_eq d x) (includes-append_left d xs ys later)
]

includes_last : (d : String) (xs : List String) → includes d (xs ++ d ∷ []) ≡ true
includes_last d [] = rw (str_eq_refl d) refl
includes_last d (x ∷ xs) = or_right (str_eq d x) (includes_last d xs)

absent : (d : String) (ss : List PipelineStep) → includes d (ids_of ss) ≡ false → by_id d ss ≡ none
absent d ss h = elim (Option-cases (by_id d ss)) [
  | inl e ↦ e
  | inr (s, e) ↦
      let there : true ≡ false = sym (ap is_some e) ∙ (has_step-includes d ss ∙ h) in absurd (cc)
]

abbrev pub Distinct : List PipelineStep → List String → List String → Type 0
Distinct ss seen all_seen =
    (all_seen ≡ seen ++ ids_of ss)
    × ((ids : List String) → IsKeyed (table_of ids ss))
    × ((d : String) → includes d seen ≡ true → includes d (ids_of ss) ≡ false)

module _ (lower : String → String) (catalogue : Catalogue) (steps : List PipelineStep) where
  abbrev pub Real : PipelineParseError → Type 0
  Real e = IsReal lower catalogue steps e

  pub refuse_duplicates-Judges :
      (ss : List PipelineStep) (seen : List String)
      → seen ++ ids_of ss ≡ ids_of steps
      → Judges (Distinct ss seen) Real (refuse_duplicates ss seen)
  unfolding refuse_duplicates
  refuse_duplicates-Judges [] seen h = returns (sym (append-nil seen), λ ids. tt, λ d there. refl)
  refuse_duplicates-Judges (s ∷ ss) seen h = elim (Bool-cases (includes s.id seen)) [
    | inl twice ↦ rw twice (
        refuses (
          subst (λ xs. 2 ≤ times s.id xs) h
            (omega (
              arith,
              times-append s.id seen (s.id ∷ ids_of ss),
              times_of_includes s.id seen twice,
              ap one (str_eq_refl s.id),
            ))))
    | inr fresh ↦ rw fresh (
        longer (refuse_duplicates ss (seen ++ s.id ∷ [])) fresh (
          refuse_duplicates-Judges ss (seen ++ s.id ∷ [])
            (append_assoc seen (s.id ∷ []) (ids_of ss) ∙ h)))
  ]
    where
      longer :
          (r : Result (List String))
          → includes s.id seen ≡ false
          → Judges (Distinct ss (seen ++ s.id ∷ [])) Real r
          → Judges (Distinct (s ∷ ss) seen) Real r
      longer r fresh (refuses q) = refuses q
      longer r fresh (returns (same, keyed, apart)) = returns (
        same ∙ append_assoc seen (s.id ∷ []) (ids_of ss),
        λ ids. (
          table_absent ids s.id ss (absent s.id ss (apart s.id (includes_last s.id seen))),
          keyed ids,
        ),
        λ d there. elim (str_eq-cases d s.id) [
          | inl here ↦
              let bad : includes s.id seen ≡ true =
                subst (λ k. includes k seen ≡ true) here there in
              absurd (cc)
          | inr other ↦ rw other (apart d (includes-append_left d seen (s.id ∷ []) there))
        ],
      )
