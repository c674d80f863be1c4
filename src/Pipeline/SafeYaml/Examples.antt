-- ===== src/Pipeline/SafeYaml/Examples.antt =====
-- Tests of the reader, and its theorems at concrete documents.
use asterim.Prelude.{
  String, true, false, ◌≡◌, refl, arith, ◌≢◌, ◌⊎◌, [], ◌∷◌, text_units, join, str_eq,
}
use asterim.Pipeline.Parser.Values.{
  YamlValue, text, number, boolean, null, sequence, mapping, nil, cons, end, entry, member, Number,
}
use asterim.Pipeline.SafeYaml.Answers.{
  value, thrown, throw, flow_too_deep, YamlParseError, out_of_fuel, refused_sigil, item_for_key,
  refused_key,
}
use asterim.Pipeline.SafeYaml.Blocks.{parse_safe_yaml}
use asterim.Pipeline.SafeYaml.BlocksSafe.{parse_safe_yaml-IsSafe, parse_safe_yaml_ends}
use asterim.Pipeline.SafeYaml.PrintedLines.{Field, print}
use asterim.Pipeline.SafeYaml.RoundTrip.{parse_safe_yaml-print}
use asterim.Pipeline.SafeYaml.Safe.{IsSafe}
use asterim.Pipeline.SafeYaml.Scalars.{is_answer}

abbrev shown : String → Number
shown s = record { negative = false; whole = 0; has_fraction = false; shown = s }

abbrev line : String → String → String
line s rest = join s (join "\n" rest)

abbrev document : String
document = line "---" (
    line "name: build # first" (
      line "steps:" (
        line "  - id: 'it''s'" (
          line "    dependsOn: [a, \"b#\", {c: true}]" (
            line "    task: |-"
              (line "      run" (line "" (line "       it" (line "  - -1.5e3" "on: ~")))))))))

document_read :
    parse_safe_yaml shown document
    ≡ value (
        mapping (
          entry "name" (text "build") (
            entry "steps"
              (sequence (
                cons
                  (mapping (
                    entry "id" (text "it's") (
                      entry "dependsOn"
                        (sequence (
                          cons
                            (text "a")
                            (cons (text "b#") (cons (mapping (entry "c" (boolean true) end)) nil))))
                        (entry "task" (text "run\n\n it") end))))
                  (cons (number (shown "-1.5e3")) nil)))
              (entry "on" null end))))
unfolding parse_safe_yaml join str_eq
document_read = refl

nested_item : parse_safe_yaml shown "- - a" ≡ value (sequence (cons (text "- a") nil))
unfolding parse_safe_yaml str_eq
nested_item = refl

nested_entry : parse_safe_yaml shown "- - a: b" ≡ throw item_for_key 1
unfolding parse_safe_yaml str_eq
nested_entry = refl

anchored : parse_safe_yaml shown "a: &b c" ≡ throw refused_sigil 1
unfolding parse_safe_yaml str_eq
anchored = refl

prototype : parse_safe_yaml shown "a: {__proto__: c}" ≡ throw (refused_key "__proto__") 1
unfolding parse_safe_yaml str_eq
prototype = refl

-- A flow value may nest 25 deep below any block.
nested_flow :
    is_answer (parse_safe_yaml shown "a: [[[[[[[[[[[[[[[[[[[[[[[[[]]]]]]]]]]]]]]]]]]]]]]]]]") ≡ true
unfolding parse_safe_yaml str_eq
nested_flow = refl

deeper_flow :
    parse_safe_yaml shown "a: [[[[[[[[[[[[[[[[[[[[[[[[[[]]]]]]]]]]]]]]]]]]]]]]]]]]"
    ≡ throw flow_too_deep 1
unfolding parse_safe_yaml str_eq
deeper_flow = refl

kept_newlines :
    parse_safe_yaml shown (line "a: |+" (line "  b" (line "" "c: d")))
    ≡ value (mapping (entry "a" (text "b\n") (entry "c" (text "d") end)))
unfolding parse_safe_yaml str_eq join
kept_newlines = refl

parse_safe_yaml-IsSafe_example :
    IsSafe 50 (mapping (entry "a" (sequence (cons (text "b") nil)) end))
unfolding parse_safe_yaml str_eq
parse_safe_yaml-IsSafe_example =
    parse_safe_yaml-IsSafe shown "a: [b]" (mapping (entry "a" (sequence (cons (text "b") nil)) end))
      refl

parse_safe_yaml_ends_example :
    ((v : YamlValue) × (parse_safe_yaml shown document ≡ value v))
    ⊎ ((e : YamlParseError) × (parse_safe_yaml shown document ≡ thrown e)
        × (e.problem ≢ out_of_fuel))
parse_safe_yaml_ends_example = parse_safe_yaml_ends shown document

abbrev first_field : Field
first_field = ("a: #", "it's \"b\"\n")

abbrev second_field : Field
second_field = ("- c", " &d\\ ")

parse_safe_yaml-print_example :
    parse_safe_yaml shown (print (first_field ∷ second_field ∷ []))
    ≡ value (mapping (entry "a: #" (text "it's \"b\"\n") (entry "- c" (text " &d\\ ") end)))
unfolding member str_eq
parse_safe_yaml-print_example =
    parse_safe_yaml-print shown first_field (second_field ∷ []) (omega arith)
      (refl, refl, (refl, refl, tt)) (unfold text_units print in omega arith)
