-- ===== src/Pipeline/SafeYaml/Turns.antt =====
-- The turns of the loops of `parseMapping` and `parseSequence`, and what they call.
use asterim.Prelude.{
  ℕ, suc, Bool, true, false, ◌||◌, List, [], ◌∷◌, String, if◌then◌else◌, ltb, leb, is_some,
  is_empty, trim, length,
}
use Prim.Native.Char.{code}
use asterim.Prelude.{◌==◌}
use asterim.Pipeline.Parser.Values.{
  YamlValue, text, null, sequence, mapping, YamlValues, YamlMapping, Number, member, values_of,
  keys_of,
}
use asterim.Pipeline.SafeYaml.Answers.{
  Answer, value, ◌>>=◌, ◌>>◌, throw_if, max_yaml_depth, max_yaml_collection_entries, push, assign,
  too_deep, unexpected_indentation, item_for_key, too_many_entries, duplicate_key,
}
use asterim.Pipeline.SafeYaml.Scalars.{split_key, looks_like_mapping_entry, guard_key}
use asterim.Pipeline.SafeYaml.Flow.{parse_scalar}
use asterim.Pipeline.SafeYaml.Lines.{
  SafeYamlReader, indent_of, content_of, skip_ignorable, is_item, drop_chars, column_of_item_value,
  indented,
}
use asterim.Pipeline.SafeYaml.BlockScalars.{parse_block_scalar}

abbrev pub Read : Type 0 → Type 0
Read A = Answer (A × SafeYamlReader)

abbrev pub as_text : Read String → Read YamlValue
as_text a = do (s, r) ← a; value (text s, r)

abbrev pub as_sequence : Read YamlValues → Read YamlValue
as_sequence a = do (vs, r) ← a; value (sequence vs, r)

abbrev pub as_mapping : Read YamlMapping → Read YamlValue
as_mapping a = do (m, r) ← a; value (mapping m, r)

-- `isBlockScalarHeader`.
abbrev pub is_block_header : String → Bool
is_block_header String.[] = false
is_block_header (String.◌∷◌ c s) = (code c == b'|') || (code c == b'>')

-- The reader behind its first line, whose content was read.
abbrev pub behind_line : SafeYamlReader → List String → SafeYamlReader
behind_line r ls = record r { index = suc r.index; ahead = ls; saw_content = true }

-- With its first line rewritten.
abbrev pub rewritten : SafeYamlReader → String → List String → SafeYamlReader
rewritten r l ls = record r { ahead = l ∷ ls; saw_content = true }

abbrev pub child_found :
    (ℕ → SafeYamlReader → Read YamlValue) → ℕ → SafeYamlReader → List String → Read YamlValue
child_found node parent r [] = value (null, r)
child_found node parent r (l ∷ ls) =
    indent_of r.index l >>= λ indent. if leb indent parent then value (null, r) else node indent r

-- `parseChildBlock`, where `node` is `parseNode` one level deeper.
abbrev pub child_block : (ℕ → SafeYamlReader → Read YamlValue) → ℕ → SafeYamlReader → Read YamlValue
child_block node parent r = do r₁ ← skip_ignorable r; child_found node parent r₁ r₁.ahead

abbrev pub at_end {ℓ} : {A : Type ℓ} → Answer A → SafeYamlReader → Answer (A × SafeYamlReader)
at_end a r = do v ← a; value (v, r)

module _ (number_of : String → Number) where
  abbrev pub scalar_at : ℕ → String → SafeYamlReader → Read YamlValue
  scalar_at line s r = at_end (parse_scalar number_of line s) r

  -- `parseValueAfterKey`.
  abbrev pub value_after_key :
      (ℕ → SafeYamlReader → Read YamlValue) → String → ℕ → ℕ → SafeYamlReader → Read YamlValue
  value_after_key node rest indent line r =
      if is_empty rest
      then child_block node indent r
      else if is_block_header rest
      then as_text (parse_block_scalar rest indent line r)
      else scalar_at line rest r

  -- The tests of `parseMapping` on a key.
  abbrev pub check_key : String → YamlMapping → ℕ → Answer (Unit {0})
  check_key key m line =
      guard_key key line
      >> throw_if (is_some (member key m)) (duplicate_key key) line
      >> throw_if (leb max_yaml_collection_entries (length (keys_of m))) too_many_entries line

  -- An entry of `parseMapping` on a line of its indentation, and what follows it.
  abbrev pub entry_line :
      (ℕ → SafeYamlReader → Read YamlValue)
      → (YamlMapping → SafeYamlReader → Read YamlMapping)
      → ℕ
      → YamlMapping
      → SafeYamlReader
      → String
      → List String
      → Read YamlMapping
  entry_line node again indent m r l ls = do
    s ← content_of r.index l
    throw_if (is_item s) item_for_key (suc r.index)
    (key, rest) ← split_key s (suc r.index)
    check_key key m (suc r.index)
    (v, r₁) ← value_after_key node rest indent (suc r.index) (behind_line r ls)
    again (assign key v m) r₁

  -- A turn of the loop of `parseMapping`, behind `skipIgnorable`.
  abbrev pub mapping_turn :
      (ℕ → SafeYamlReader → Read YamlValue)
      → (YamlMapping → SafeYamlReader → Read YamlMapping)
      → ℕ
      → YamlMapping
      → SafeYamlReader
      → List String
      → Read YamlMapping
  mapping_turn node again indent m r [] = value (m, r)
  mapping_turn node again indent m r (l ∷ ls) = indent_of r.index l >>= λ line_indent.
      if ltb line_indent indent
      then value (m, r)
      else throw_if (ltb indent line_indent) unexpected_indentation (suc r.index)
        >> entry_line node again indent m r l ls

  -- `text === '-' ? '' : text.slice(2).trim()`.
  abbrev pub item_rest : String → String
  item_rest s = trim (drop_chars 2 s)

  -- What stands behind a dash.
  abbrev pub item_value :
      (ℕ → SafeYamlReader → Read YamlValue)
      → (ℕ → SafeYamlReader → Read YamlMapping)
      → String
      → ℕ
      → SafeYamlReader
      → String
      → List String
      → Read YamlValue
  item_value node entries rest indent r l ls =
      if is_empty rest
      then child_block node indent (behind_line r ls)
      else if is_block_header rest
      then as_text (parse_block_scalar rest indent (suc r.index) (behind_line r ls))
      else if looks_like_mapping_entry rest
      then as_mapping (
          entries (column_of_item_value l indent)
            (rewritten r (indented (column_of_item_value l indent) rest) ls))
      else scalar_at (suc r.index) rest (behind_line r ls)

  abbrev pub item_line :
      (ℕ → SafeYamlReader → Read YamlValue)
      → (ℕ → SafeYamlReader → Read YamlMapping)
      → (YamlValues → SafeYamlReader → Read YamlValues)
      → ℕ
      → YamlValues
      → SafeYamlReader
      → String
      → List String
      → String
      → Read YamlValues
  item_line node entries again indent items r l ls s =
      if is_item s
      then throw_if (leb max_yaml_collection_entries (length (values_of items))) too_many_entries
          (suc r.index)
        >> (do
          (v, r₁) ← item_value node entries (item_rest s) indent r l ls
          again (push v items) r₁)
      else value (items, record r { saw_content = true })

  -- A turn of the loop of `parseSequence`, behind `skipIgnorable`.
  abbrev pub sequence_turn :
      (ℕ → SafeYamlReader → Read YamlValue)
      → (ℕ → SafeYamlReader → Read YamlMapping)
      → (YamlValues → SafeYamlReader → Read YamlValues)
      → ℕ
      → YamlValues
      → SafeYamlReader
      → List String
      → Read YamlValues
  sequence_turn node entries again indent items r [] = value (items, r)
  sequence_turn node entries again indent items r (l ∷ ls) = indent_of r.index l >>= λ line_indent.
      if ltb line_indent indent
      then value (items, r)
      else throw_if (ltb indent line_indent) unexpected_indentation (suc r.index)
        >> (content_of r.index l >>= item_line node entries again indent items r l ls)

  abbrev pub guard_depth : ℕ → ℕ → Answer (Unit {0})
  guard_depth depth line = throw_if (ltb max_yaml_depth depth) too_deep line

  -- `parseNode` behind `skipIgnorable`.
  abbrev pub node_found :
      (SafeYamlReader → Read YamlValues)
      → (SafeYamlReader → Read YamlMapping)
      → SafeYamlReader
      → List String
      → Read YamlValue
  node_found items entries r [] = value (null, r)
  node_found items entries r (l ∷ ls) = content_of r.index l >>= λ s.
      if is_item s
      then as_sequence (items (record r { saw_content = true }))
      else as_mapping (entries (record r { saw_content = true }))
