-- ===== src/Pipeline/SafeYaml/Blocks.antt =====
-- `parseNode` with the block collections, `read` and `parseSafeYaml`.
use asterim.Prelude.{
  ℕ, zero, suc, ◌+◌, ◌*◌, false, List, [], ◌∷◌, String, ltb, leb, trim, text_units, length, map,
}
use asterim.Pipeline.Parser.Values.{
  YamlValue, null, YamlValues, nil, YamlMapping, end, Number, member,
}
use asterim.Pipeline.SafeYaml.Answers.{
  Answer, value, ◌>>=◌, ◌>>◌, throw, throw_if, max_yaml_chars, max_yaml_lines, push, assign,
  too_many_chars, too_many_lines, content_after_end, out_of_fuel,
}
use asterim.Pipeline.SafeYaml.Scalars.{split_key}
use asterim.Pipeline.SafeYaml.Flow.{parse_scalar}
use asterim.Pipeline.SafeYaml.Lines.{
  SafeYamlReader, split_lines, strip_return, indent_of, content_of, skip_ignorable, drop_chars,
  column_of_item_value, indented,
}
use asterim.Pipeline.SafeYaml.BlockScalars.{parse_block_scalar}
use asterim.Pipeline.SafeYaml.Turns.{Read, mapping_turn, sequence_turn, guard_depth, node_found}

module _ (number_of : String → Number) where
  unfoldable mutual
    unfolding skip_ignorable content_of split_key parse_scalar parse_block_scalar member assign push
        column_of_item_value indented trim drop_chars

    pub parse_node : ℕ → ℕ → ℕ → SafeYamlReader → Read YamlValue
    parse_node zero depth indent r = throw out_of_fuel (suc r.index)
    parse_node (suc n) depth indent r = guard_depth number_of depth (suc r.index) >> (do
      r₁ ← skip_ignorable r
      node_found number_of (parse_sequence n depth indent nil) (parse_mapping n depth indent end) r₁
          r₁.ahead)

    pub parse_mapping : ℕ → ℕ → ℕ → YamlMapping → SafeYamlReader → Read YamlMapping
    parse_mapping zero depth indent m r = throw out_of_fuel (suc r.index)
    parse_mapping (suc n) depth indent m r = do
      r₁ ← skip_ignorable r
      mapping_turn number_of (parse_node n (suc depth)) (parse_mapping n depth indent) indent m r₁
          r₁.ahead

    pub parse_sequence : ℕ → ℕ → ℕ → YamlValues → SafeYamlReader → Read YamlValues
    parse_sequence zero depth indent items r = throw out_of_fuel (suc r.index)
    parse_sequence (suc n) depth indent items r = do
      r₁ ← skip_ignorable r
      sequence_turn number_of (parse_node n (suc depth))
          (λ column r₂.
            guard_depth number_of (suc depth) (suc r₂.index)
            >> parse_mapping n (suc depth) column end r₂)
          (parse_sequence n depth indent) indent items r₁ r₁.ahead

  -- Each line is read at most three times: as a block, as an item and as an entry.
  abbrev pub block_fuel : List String → ℕ
  block_fuel ls = 3 * length ls + 3

  abbrev pub finish_read : YamlValue × SafeYamlReader → Answer YamlValue
  finish_read (v, r) = do
    r₁ ← skip_ignorable r
    throw_if (leb 1 (length r₁.ahead)) content_after_end (suc r₁.index)
    value v

  abbrev pub read_found : SafeYamlReader → List String → Answer YamlValue
  read_found r [] = value null
  read_found r (l ∷ ls) = do
    indent ← indent_of r.index l
    parse_node (block_fuel (l ∷ ls)) 0 indent r >>= finish_read

  unfoldable pub read : List String → Answer YamlValue
  unfolding parse_node skip_ignorable
  read ls = do
    r ←
        skip_ignorable
          (record { index = 0; ahead = ls; saw_document_start = false; saw_content = false })
    read_found r r.ahead

  -- The constructor's bounds, and `read`.
  unfoldable pub parse_safe_yaml : String → Answer YamlValue
  unfolding text_units split_lines strip_return read
  parse_safe_yaml source = do
    throw_if (ltb max_yaml_chars (text_units source)) (too_many_chars (text_units source)) 0
    let lines = map strip_return (split_lines source)
    throw_if (ltb max_yaml_lines (length lines)) (too_many_lines (length lines)) 0
    read lines
