-- ===== src/Pipeline/Parser/Accepted.antt =====
-- `readSteps` judges a list of steps, and `parse` a document.
use asterim.Prelude.{
  ◌≡◌, refl, sym, subst, inl, inr, String, Bool, true, false, not, ◌&&◌, ◌||◌, Option, none, some,
  List, [], ◌∷◌, if◌then◌else◌, str_eq, str_eq_refl, str_eq_iff, Option-cases, is_some, any,
  includes, IsKeyed, All,
}
use asterim.Pipeline.Graph.{PipelineStep, topological_pipeline_order, ids_of}
use asterim.Pipeline.Ordered.{dependency_table}
use asterim.Pipeline.Cycle.{find_pipeline_cycle}
use asterim.Pipeline.Cycle.Found.{or_right}
use asterim.Pipeline.Cycle.Agreement.{
  find_pipeline_cycle-IsCycle, find_pipeline_cycle-topological_pipeline_order,
}
use asterim.Pipeline.Parser.Values.{PipelineParseError, no_order, ok, refused, refuse_if}
use asterim.Pipeline.Parser.Steps.{
  check_dependencies, check_each_dependency, refuse_cycle, Catalogue, check_roles, check_steps,
}
use asterim.Pipeline.Parser.Checked.{
  Judges, Judges-bind, Judges-if, Judges-mono, Judges-refused, Depends, resolves, IsReal, HasSteps,
  IsAccepted, Real, refuse_duplicates-Judges,
}

and_both : (a b : Bool) → a ≡ true → b ≡ true → a && b ≡ true
and_both true b h k = k
and_both false b h k = absurd (cc)

-- Any test that the step passes is passed by some step of the list.
abbrev MemberOf : List PipelineStep → PipelineStep → Type 0
MemberOf steps s = (p : PipelineStep → Bool) → p s ≡ true → any p steps ≡ true

not-true : (b : Bool) → not b ≡ true → b ≡ false
not-true true h = absurd (cc)
not-true false h = refl

not-false : (b : Bool) → not b ≡ false → b ≡ true
not-false true h = refl
not-false false h = absurd (cc)

module _ (lower : String → String) (catalogue : Catalogue) (steps : List PipelineStep) where
  check_dependencies-Judges :
      (id : String) (ds : List String)
      → ((d : String) → includes d ds ≡ true → Depends steps id d)
      → Judges
          (λ u. All (λ d. (str_eq d id ≡ false) × (includes d (ids_of steps) ≡ true)) ds)
          (Real lower catalogue steps)
          (check_dependencies id ds (ids_of steps))
  unfolding check_dependencies
  check_dependencies-Judges id [] h = Judges.returns tt
  check_dependencies-Judges id (d ∷ ds) h =
      let own : Depends steps id d = h d (rw (str_eq_refl d) refl) in
      Judges-if (str_eq d id)
        (λ same. Judges.refuses (subst (Depends steps id) ((str_eq_iff d id).0 same) own))
        λ other.
          Judges-if (not (includes d (ids_of steps)))
            (λ unknown. Judges.refuses (own, not-true (includes d (ids_of steps)) unknown))
            λ known.
              Judges-mono (λ u rest. ((other, not-false (includes d (ids_of steps)) known), rest))
                (check_dependencies-Judges id ds (λ e there. h e (or_right (str_eq e d) there)))

  check_each_dependency-Judges :
      (ss : List PipelineStep)
      → All (MemberOf steps) ss
      → Judges
          (λ u. All (HasSteps (ids_of steps)) ss)
          (Real lower catalogue steps)
          (check_each_dependency ss (ids_of steps))
  unfolding check_each_dependency
  check_each_dependency-Judges [] h = Judges.returns tt
  check_each_dependency-Judges (s ∷ ss) (here, h) =
      Judges-bind (λ u. check_each_dependency ss (ids_of steps))
        (check_dependencies-Judges s.id s.depends_on (λ d there.
          here (λ t. str_eq t.id s.id && includes d t.depends_on)
            (and_both (str_eq s.id s.id) (includes d s.depends_on) (str_eq_refl s.id) there)))
        λ u own. Judges-mono (λ v rest. (own, rest)) (check_each_dependency-Judges ss h)

  check_roles-Judges :
      (ss : List PipelineStep)
      → All (MemberOf steps) ss
      → Judges
          (λ u. All (λ s. resolves lower catalogue s.role_profile_id ≡ true) ss)
          (Real lower catalogue steps)
          (check_roles lower catalogue ss)
  unfolding check_roles
  check_roles-Judges [] h = Judges.returns tt
  check_roles-Judges (s ∷ ss) (here, h) =
      Judges-if (resolves lower catalogue s.role_profile_id)
        (λ good. Judges-mono (λ u rest. (good, rest)) (check_roles-Judges ss h))
        λ bad. Judges.refuses (
          here (λ t. str_eq t.id s.id && str_eq t.role_profile_id s.role_profile_id)
              (and_both (str_eq s.id s.id) (str_eq s.role_profile_id s.role_profile_id)
                (str_eq_refl s.id) (str_eq_refl s.role_profile_id)),
          bad,
        )

members : (steps : List PipelineStep) → All (MemberOf steps) steps
members [] = tt
members (s ∷ ss) = (λ p h. own (p s) (any p ss) h, weaken ss (members ss))
  where
    own : (a b : Bool) → a ≡ true → a || b ≡ true
    own true b h = refl
    own false b h = absurd (cc)

    weaken : (ts : List PipelineStep) → All (MemberOf ss) ts → All (MemberOf (s ∷ ss)) ts
    weaken [] h = tt
    weaken (t ∷ ts) (here, h) = (λ p e. or_right (p s) (here p e), weaken ts h)

ordered_some :
    (steps : List PipelineStep)
    → is_some (topological_pipeline_order steps) ≡ true
    → (order : List String) × (topological_pipeline_order steps ≡ some order)
ordered_some steps h = elim (Option-cases (topological_pipeline_order steps)) [
  | inl e ↦ absurd (cc)
  | inr found ↦ found
]

module _ (lower : String → String) (catalogue : Catalogue) (validate_roles : Bool) where
  refuse_cycle-Judges :
      (steps : List PipelineStep)
      → Judges
          (λ u. find_pipeline_cycle steps ≡ none)
          (Real lower catalogue steps)
          (refuse_cycle (find_pipeline_cycle steps))
  refuse_cycle-Judges steps = judged (find_pipeline_cycle steps) refl
    where
      judged :
          (o : Option (List String))
          → find_pipeline_cycle steps ≡ o
          → Judges
              (λ u. find_pipeline_cycle steps ≡ none)
              (Real lower catalogue steps)
              (refuse_cycle o)
      judged none e = Judges.returns e
      judged (some path) e = Judges.refuses (find_pipeline_cycle-IsCycle steps path e)

  check_order-Judges :
      (steps : List PipelineStep)
      → IsKeyed (dependency_table steps)
      → find_pipeline_cycle steps ≡ none
      → Judges
          (λ u. (order : List String) × (topological_pipeline_order steps ≡ some order))
          (Real lower catalogue steps)
          (refuse_if (not (is_some (topological_pipeline_order steps))) no_order)
  check_order-Judges steps keyed acyclic =
      let ordered : is_some (topological_pipeline_order steps) ≡ true =
        (find_pipeline_cycle-topological_pipeline_order steps keyed).0 acyclic in
      let (order, found) = ordered_some steps ordered in
      subst
        (λ b.
          Judges (λ u. (order' : List String) × (topological_pipeline_order steps ≡ some order'))
            (Real lower catalogue steps) (refuse_if (not b) no_order))
        (sym ordered) (Judges.returns (order, found))

  pub check_steps-Judges :
      (steps : List PipelineStep)
      → Judges
          (λ ss. (ss ≡ steps) × IsAccepted lower catalogue validate_roles steps)
          (Real lower catalogue steps)
          (check_steps lower catalogue validate_roles steps)
  unfolding check_steps
  check_steps-Judges steps =
      let shown = members steps in
      Judges-bind _ (refuse_duplicates-Judges lower catalogue steps steps [] refl)
        λ seen (same, keyed, apart).
          Judges-bind _
            (subst
              (λ xs.
                Judges (λ u. All (HasSteps (ids_of steps)) steps) (Real lower catalogue steps)
                  (check_each_dependency steps xs))
              (sym same) (check_each_dependency-Judges lower catalogue steps steps shown))
            λ u linked. Judges-bind _ (refuse_cycle-Judges steps) λ v acyclic.
              Judges-bind _ (check_order-Judges steps (keyed (ids_of steps)) acyclic) λ w ordered.
                Judges-bind _ (roles_judged shown) λ x resolved. Judges.returns (
                  refl,
                  record {
                    keyed = keyed (ids_of steps);
                    linked = linked;
                    ordered = ordered;
                    resolved = resolved;
                  },
                )
    where
      roles_judged :
          All (MemberOf steps) steps
          → Judges
              (λ u.
                validate_roles ≡ true
                → All (λ s. resolves lower catalogue s.role_profile_id ≡ true) steps)
              (Real lower catalogue steps)
              (if validate_roles then check_roles lower catalogue steps else ok tt)
      roles_judged shown =
          Judges-if validate_roles
            (λ asked.
              Judges-mono (λ u all_resolved again. all_resolved)
                (check_roles-Judges lower catalogue steps steps shown))
            (λ unasked. Judges.returns (λ asked. absurd (cc)))

  -- A refusal of the checks on the steps that were read says what is so: an id that it calls duplicate
  -- stands twice, a dependency that it calls unknown is one of that step and no step, a path that it
  -- calls a cycle is one, a role that it names is that of a step and resolves to no profile. Steps
  -- without a cycle are never refused for having no order.
  pub check_steps-IsReal :
      (steps : List PipelineStep) (e : PipelineParseError)
      → check_steps lower catalogue validate_roles steps ≡ refused e
      → IsReal lower catalogue steps e
  check_steps-IsReal steps e refusal = Judges-refused (check_steps-Judges steps) refusal
