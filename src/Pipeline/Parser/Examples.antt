-- ===== src/Pipeline/Parser/Examples.antt =====
-- A document of two steps, and one that is refused.
use asterim.Prelude.{
  ◌≡◌, refl, true, false, String, none, some, [], ◌∷◌, unique, get, put, str_eq, strip_prefix,
  trim_start, trim_end,
}
use asterim.Pipeline.Graph.{
  topological_pipeline_order, finished_walk, plan_steps, known_dependencies, add_dependent,
  first_queue, first_walk, release_dependents, take_next, walk,
}
use asterim.Pipeline.Examples.{step_of}
use asterim.Pipeline.Cycle.{by_id, find_pipeline_cycle}
use asterim.Pipeline.Parser.Values.{
  YamlValue, text, number, mapping, sequence, nil, cons, end, entry, ok, refused,
  unknown_dependency, Number,
}
use asterim.Pipeline.Parser.Readers.{manual}
use asterim.Pipeline.Parser.Steps.{Catalogue, PipelineDefinition, parse, check_steps}
use asterim.Pipeline.Parser.Checked.{IsReal}
use asterim.Pipeline.Parser.Accepted.{check_steps-IsReal}
use asterim.Pipeline.Parser.Parsed.{IsSound, parse-IsSound}

abbrev pub same_case : String → String
same_case s = s

abbrev pub catalogue : Catalogue
catalogue = record {
  stored = [];
  available = record { id = "p1"; role = "coder"; name = "Coder" } ∷ [];
}

abbrev two : Number
two = record { negative = false; whole = 2; has_fraction = false; shown = "2" }

abbrev code_step : YamlValue
code_step = mapping (
    entry "id" (text "code") (
      entry "role" (text "coder")
        (entry "task" (text " write it ") (entry "retries" (number two) end))))

abbrev test_step : YamlValue
test_step = mapping (
    entry "id" (text "test") (
      entry "role" (text "coder")
        (entry "task" (text "test it") (entry "dependsOn" (text "code") end))))

abbrev pub document : YamlValue
document = mapping (
    entry "name" (text "build")
      (entry "steps" (sequence (cons test_step (cons code_step nil))) end))

abbrev pub definition : PipelineDefinition
definition = record {
  name = "build";
  description = none;
  project_id = none;
  trigger = manual;
  parameters = none;
  steps =
      record {
        id = "test";
        name = "test";
        role_profile_id = "coder";
        task = "test it";
        depends_on = "code" ∷ [];
        input_context = none;
        timeout_ms = none;
        isolate_worktree = none;
        verify_pipeline = none;
        verification_steps = none;
        retries = none;
        retry_delay_ms = none;
      }
      ∷ record {
        id = "code";
        name = "code";
        role_profile_id = "coder";
        task = "write it";
        depends_on = [];
        input_context = none;
        timeout_ms = none;
        isolate_worktree = none;
        verify_pipeline = none;
        verification_steps = none;
        retries = some 2;
        retry_delay_ms = none;
      }
      ∷ [];
}

pub document_parsed : parse same_case same_case catalogue true (some document) ≡ ok definition
unfolding parse topological_pipeline_order finished_walk plan_steps known_dependencies add_dependent
    first_queue first_walk release_dependents take_next walk unique get put str_eq
    find_pipeline_cycle by_id strip_prefix trim_start trim_end
document_parsed = refl

parse-IsSound_example : IsSound same_case catalogue true definition.steps
parse-IsSound_example =
    parse-IsSound same_case same_case catalogue true (some document) definition document_parsed

dangling_refused :
    check_steps same_case catalogue true (step_of "a" ("b" ∷ []) ∷ [])
    ≡ refused (unknown_dependency "a" "b")
unfolding check_steps str_eq
dangling_refused = refl

check_steps-IsReal_example :
    IsReal same_case catalogue (step_of "a" ("b" ∷ []) ∷ []) (unknown_dependency "a" "b")
check_steps-IsReal_example =
    check_steps-IsReal same_case catalogue true (step_of "a" ("b" ∷ []) ∷ [])
      (unknown_dependency "a" "b") dangling_refused
