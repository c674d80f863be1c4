-- ===== src/Pipeline/Parser/Steps.antt =====
-- `readSteps`, `resolvesToProfile` and `parse`, behind `parseSafeYaml`.
use asterim.Prelude.{
  String, Bool, not, ◌||◌, Option, none, some, List, [], ◌∷◌, ◌++◌, if◌then◌else◌, ltb, str_eq,
  length, includes, any, is_some, trim, contains_text, Map,
}
use asterim.Pipeline.Graph.{PipelineStep, topological_pipeline_order}
use asterim.Pipeline.Cycle.{find_pipeline_cycle}
use asterim.Pipeline.Parser.Values.{
  YamlValue, sequence, mapping, YamlMapping, member, values_of, field, unreadable, not_a_mapping,
  no_steps, too_many_steps, duplicate_id, self_dependency, unknown_dependency, dependency_cycle,
  no_order, unknown_role, Result, ok, refused, ◌>>=◌, ◌>>◌, refuse_if, or_else, refuse_unknown_keys,
  require_text, optional_text,
}
use asterim.Pipeline.Parser.Readers.{
  max_pipeline_steps, max_pipeline_name_chars, max_pipeline_description_chars, read_each_step,
  TriggerType, read_trigger, read_parameters,
}

-- The loop over the ids, which leaves the set of them.
unfoldable pub refuse_duplicates : List PipelineStep → List String → Result (List String)
refuse_duplicates [] seen = ok seen
refuse_duplicates (s ∷ ss) seen =
    let rest = refuse_duplicates ss (seen ++ s.id ∷ []) in
    if includes s.id seen then refused (duplicate_id s.id) else rest

unfoldable pub check_dependencies : String → List String → List String → Result (Unit {0})
check_dependencies id [] seen = ok tt
check_dependencies id (d ∷ ds) seen =
    let rest = check_dependencies id ds seen in
    if str_eq d id
    then refused (self_dependency id)
    else if not (includes d seen)
    then refused (unknown_dependency id d)
    else rest

unfoldable pub check_each_dependency : List PipelineStep → List String → Result (Unit {0})
unfolding check_dependencies
check_each_dependency [] seen = ok tt
check_each_dependency (s ∷ ss) seen =
    let rest = check_each_dependency ss seen in check_dependencies s.id s.depends_on seen >> rest

abbrev pub refuse_cycle : Option (List String) → Result (Unit {0})
refuse_cycle none = ok tt
refuse_cycle (some path) = refused (dependency_cycle path)

pub record Profile : Type 0 where
  pub id : String
  pub role : String
  pub name : String

-- The profiles that `getProfile` finds by id, and those that `listProfiles` returns.
pub record Catalogue : Type 0 where
  pub stored : List Profile
  pub available : List Profile

module _ (lower : String → String) where
  abbrev pub normal : String → String
  normal s = lower (trim s)

  abbrev pub profile_matches : String → Profile → Bool
  profile_matches wanted p =
      str_eq (normal p.role) wanted
      || str_eq (normal p.name) wanted
      || contains_text (normal p.role) wanted
      || contains_text (normal p.name) wanted

  unfoldable pub resolves_to_profile : Catalogue → String → Bool
  unfolding trim contains_text
  resolves_to_profile catalogue reference =
      any (λ p. str_eq p.id reference) catalogue.stored
      || any (profile_matches (normal reference)) catalogue.available

  unfoldable pub check_roles : Catalogue → List PipelineStep → Result (Unit {0})
  unfolding resolves_to_profile
  check_roles catalogue [] = ok tt
  check_roles catalogue (s ∷ ss) =
      let rest = check_roles catalogue ss in
      if resolves_to_profile catalogue s.role_profile_id
      then rest
      else refused (unknown_role s.id s.role_profile_id)

  -- What stands between the reading of the steps and their return.
  unfoldable pub check_steps : Catalogue → Bool → List PipelineStep → Result (List PipelineStep)
  unfolding refuse_duplicates check_each_dependency check_roles find_pipeline_cycle
      topological_pipeline_order
  check_steps catalogue validate_roles steps = do
    seen ← refuse_duplicates steps []
    check_each_dependency steps seen
    refuse_cycle (find_pipeline_cycle steps)
    refuse_if (not (is_some (topological_pipeline_order steps))) no_order
    if validate_roles then check_roles catalogue steps else ok tt
    ok steps

  unfoldable pub read_steps : Catalogue → Bool → Option YamlValue → Result (List PipelineStep)
  unfolding check_steps read_each_step
  read_steps catalogue validate_roles (some (sequence vs)) = elim (values_of vs) [
    | [] ↦ refused no_steps
    | v ∷ more ↦
        refuse_if (ltb max_pipeline_steps (length (v ∷ more))) (too_many_steps (length (v ∷ more)))
        >> (read_each_step (v ∷ more) 0 >>= check_steps catalogue validate_roles)
  ]
  read_steps catalogue validate_roles v = refused no_steps

pub record PipelineDefinition : Type 0 where
  pub name : String
  pub description : Option String
  pub project_id : Option String
  pub trigger : TriggerType
  pub parameters : Option (Map String)
  pub steps : List PipelineStep

abbrev pub definition_keys : List String
definition_keys =
    "name" ∷ "description" ∷ "projectId" ∷ "project" ∷ "trigger" ∷ "parameters" ∷ "steps" ∷ []

module _ (lower upper : String → String) (catalogue : Catalogue) (validate_roles : Bool) where
  abbrev pub read_definition : YamlMapping → Result PipelineDefinition
  read_definition m = do
    refuse_unknown_keys m definition_keys
    name ← require_text (member "name" m) (field "name") max_pipeline_name_chars
    description ←
        optional_text (member "description" m) (field "description") max_pipeline_description_chars
    project_id ←
        optional_text (or_else (member "projectId" m) (member "project" m)) (field "projectId") 200
    trigger ← read_trigger upper (member "trigger" m)
    parameters ← read_parameters (member "parameters" m)
    steps ← read_steps lower catalogue validate_roles (member "steps" m)
    ok (record {
      name = name;
      description = description;
      project_id = project_id;
      trigger = trigger;
      parameters = parameters;
      steps = steps;
    })

  -- The document is what `parseSafeYaml` returned, or `none` if it threw.
  unfoldable pub parse : Option YamlValue → Result PipelineDefinition
  unfolding refuse_unknown_keys member require_text optional_text read_trigger read_parameters
      read_steps
  parse none = refused unreadable
  parse (some (mapping m)) = read_definition m
  parse (some v) = refused not_a_mapping
