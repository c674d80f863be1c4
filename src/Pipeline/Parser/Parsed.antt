-- ===== src/Pipeline/Parser/Parsed.antt =====
-- What `parse` accepts.
use asterim.Prelude.{
  ℕ, suc, ◌≤◌, ◌≡◌, sym, subst, arith, inl, inr, String, Bool, Option, none, some, List, [], ◌∷◌,
  ltb, Bool-cases, length, All,
}
use asterim.Pipeline.Graph.{PipelineStep}
use asterim.Pipeline.Parser.Values.{
  YamlValue, sequence, mapping, member, values_of, field, PipelineParseError, no_steps,
  too_many_steps, Result, ok, refused, ◌>>=◌, ◌>>◌, refuse_if, or_else, refuse_unknown_keys,
  require_text, optional_text,
}
use asterim.Pipeline.Parser.Readers.{
  max_pipeline_steps, max_pipeline_name_chars, max_pipeline_description_chars, read_each_step,
  read_trigger, read_parameters,
}
use asterim.Pipeline.Parser.Steps.{
  Catalogue, check_steps, read_steps, definition_keys, PipelineDefinition, parse,
}
use asterim.Pipeline.Parser.Bounds.{
  Ensures, returns, refuses, Ensures-bind, Ensures-any, Ensures-ok, IsBounded,
  read_each_step-Ensures,
}
use asterim.Pipeline.Parser.Checked.{Judges, IsAccepted, Real}
use asterim.Pipeline.Parser.Accepted.{check_steps-Judges}

module _ (lower : String → String) (catalogue : Catalogue) (validate_roles : Bool) where
  -- What the engine relies on in a definition's steps.
  pub record IsSound (steps : List PipelineStep) : Type 0 where
    pub some_step : 1 ≤ length steps
    pub not_too_many : length steps ≤ max_pipeline_steps
    pub bounded : All IsBounded steps
    pub accepted : IsAccepted lower catalogue validate_roles steps

  judged_steps :
      (steps : List PipelineStep) (n : ℕ)
      → (length steps ≡ suc n) × All IsBounded steps
      → suc n ≤ max_pipeline_steps
      → Ensures IsSound (check_steps lower catalogue validate_roles steps)
  judged_steps steps n (sized, bounded) small =
      from (check_steps lower catalogue validate_roles steps)
        (check_steps-Judges lower catalogue validate_roles steps)
    where
      from :
          (r : Result (List PipelineStep))
          → Judges
              (λ ss. (ss ≡ steps) × IsAccepted lower catalogue validate_roles steps)
              (Real lower catalogue steps)
              r
          → Ensures IsSound r
      from r (Judges.refuses q) = refuses
      from r (Judges.returns (same, accepted)) = returns (
          subst IsSound (sym same) (record {
            some_step = omega (arith, sized);
            not_too_many = omega (arith, sized, small);
            bounded = bounded;
            accepted = accepted;
          }))

  few_steps :
      (n limit : ℕ) (e : PipelineParseError) → Ensures (λ u. n ≤ limit) (refuse_if (ltb limit n) e)
  few_steps n limit e = elim (Bool-cases (ltb limit n)) [
    | inl many ↦ rw many refuses
    | inr few ↦ rw few (returns (ground arith))
  ]

  read_steps-Ensures :
      (v : Option YamlValue) → Ensures IsSound (read_steps lower catalogue validate_roles v)
  unfolding read_steps
  read_steps-Ensures (some (sequence vs)) = each (values_of vs)
    where
      each :
          (vs' : List YamlValue)
          → Ensures IsSound (elim vs' [
            | [] ↦ refused no_steps
            | v ∷ more ↦
                refuse_if
                  (ltb max_pipeline_steps (length (v ∷ more)))
                  (too_many_steps (length (v ∷ more)))
                >> (read_each_step (v ∷ more) 0 >>= check_steps lower catalogue validate_roles)
          ])
      each [] = refuses
      each (v ∷ more) =
          Ensures-bind _
            (few_steps (length (v ∷ more)) max_pipeline_steps (too_many_steps (length (v ∷ more))))
            λ u small.
              Ensures-bind (check_steps lower catalogue validate_roles)
                (read_each_step-Ensures (v ∷ more) 0)
                λ steps read. judged_steps steps (length more) read small
  read_steps-Ensures v = refuses

module _ (lower upper : String → String) (catalogue : Catalogue) (validate_roles : Bool) where
  parse-Ensures :
      (document : Option YamlValue)
      → Ensures
          (λ d. IsSound lower catalogue validate_roles d.steps)
          (parse lower upper catalogue validate_roles document)
  unfolding parse
  parse-Ensures none = refuses
  parse-Ensures (some (mapping m)) =
      Ensures-bind _ (Ensures-any (refuse_unknown_keys m definition_keys)) λ u a.
        Ensures-bind _
          (Ensures-any (require_text (member "name" m) (field "name") max_pipeline_name_chars))
          λ name b.
            Ensures-bind _
              (Ensures-any (
                optional_text (member "description" m) (field "description")
                  max_pipeline_description_chars))
              λ description c.
                Ensures-bind _
                  (Ensures-any (
                    optional_text (or_else (member "projectId" m) (member "project" m))
                      (field "projectId") 200))
                  λ project_id d.
                    Ensures-bind _ (Ensures-any (read_trigger upper (member "trigger" m)))
                      λ trigger e.
                        Ensures-bind _ (Ensures-any (read_parameters (member "parameters" m)))
                          λ parameters f.
                            Ensures-bind _
                              (read_steps-Ensures lower catalogue validate_roles (member "steps" m))
                              λ steps sound. returns sound
  parse-Ensures (some v) = refuses

  -- A definition that `parse` accepts can be run: it has between 1 and 25 steps with distinct,
  -- well-formed ids and bounded tasks, timeouts, retries and delays; every dependency of a step is
  -- another step; the steps can be ordered; and, if roles are validated, every role resolves.
  pub parse-IsSound :
      (document : Option YamlValue) (d : PipelineDefinition)
      → parse lower upper catalogue validate_roles document ≡ ok d
      → IsSound lower catalogue validate_roles d.steps
  parse-IsSound document d accepted = Ensures-ok (parse-Ensures document) accepted
