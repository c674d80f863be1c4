-- ===== src/Pipeline/SafeYaml/BlockItems.antt =====
-- A turn of the loop of `parseSequence`.
use asterim.Prelude.{
  ℕ, suc, ◌-◌, ◌≤◌, true, ◌≡◌, some, List, [], ◌∷◌, String, arith, ltb, leb, is_empty, trim, length,
}
use asterim.Pipeline.Parser.Values.{YamlValue, YamlValues, YamlMapping, Number, values_of}
use asterim.Pipeline.SafeYaml.Answers.{
  value, thrown, push, max_yaml_collection_entries, too_many_entries, unexpected_indentation,
}
use asterim.Pipeline.SafeYaml.Scalars.{looks_like_mapping_entry}
use asterim.Pipeline.SafeYaml.Lines.{
  SafeYamlReader, count_indent, indent_of, content_of, is_item, drop_chars, column_of_item_value,
  indented,
}
use asterim.Pipeline.SafeYaml.LinesSafe.{indent_of-Meets, content_of-Meets, count_indent-indented}
use asterim.Pipeline.SafeYaml.Turns.{
  Read, as_mapping, is_block_header, behind_line, rewritten, item_rest, item_value, item_line,
  sequence_turn,
}
use asterim.Pipeline.SafeYaml.BlockTurns.{
  Gives, StartsAt, NodeMeets, child_block-Meets, block_scalar-Meets, scalar_at-Meets,
}
use asterim.Pipeline.SafeYaml.Safe.{
  IsSafe, Meets, Meets-bind, Meets-throw_if, Meets-if, IsList, IsFields, push-IsList,
}
use asterim.Pipeline.SafeYaml.Texts.{trim-IsSolid}

-- `parseMapping` on a rewritten line, and `parseSequence` behind an item.
abbrev pub RewrittenMeets : ℕ → ℕ → (ℕ → SafeYamlReader → Read YamlMapping) → Type 0
RewrittenMeets n j entries =
    (column : ℕ) (r : SafeYamlReader)
    → StartsAt column r.ahead
    → length r.ahead ≤ suc j
    → Meets (Gives (IsFields (n - 1)) j) (entries column r)

abbrev pub ItemsMeet : ℕ → ℕ → ℕ → (YamlValues → SafeYamlReader → Read YamlValues) → Type 0
ItemsMeet n j k again =
    (vs : YamlValues) (r : SafeYamlReader)
    → IsList n vs
    → length r.ahead ≤ j
    → Meets (Gives (IsList n) k) (again vs r)

pub as_mapping-Meets :
    (n k : ℕ) (a : Read YamlMapping)
    → 1 ≤ n
    → Meets (Gives (IsFields (n - 1)) k) a
    → Meets (Gives (IsSafe n) k) (as_mapping a)
as_mapping-Meets n k (value (m, r)) h g = ((h, g.0.0, g.0.1), g.1)
as_mapping-Meets n k (thrown e) h g = g

module _ (number_of : String → Number) where
  item_value-Meets :
      (n j : ℕ) (node : ℕ → SafeYamlReader → Read YamlValue)
      (entries : ℕ → SafeYamlReader → Read YamlMapping) (rest : String) (indent : ℕ)
      (r : SafeYamlReader) (l : String) (ls : List String)
      → 25 ≤ n
      → length ls ≤ j
      → NodeMeets n j node
      → RewrittenMeets n j entries
      → Meets (Gives (IsSafe n) j) (item_value number_of node entries (trim rest) indent r l ls)
  item_value-Meets n j node entries rest indent r l ls le h nodes maps =
      let P = Gives (IsSafe n) j in
      let column = column_of_item_value l indent in
      Meets-if P _ (is_empty (trim rest)) _
        (λ _. child_block-Meets n j node indent (behind_line r ls) nodes h)
        (λ _.
          Meets-if P _ (is_block_header (trim rest)) _
            (λ _. block_scalar-Meets n j (trim rest) indent (suc r.index) (behind_line r ls) h)
            (λ _.
              Meets-if P _ (looks_like_mapping_entry (trim rest)) _
                (λ _. as_mapping-Meets n j _ (omega arith) (
                  maps column (rewritten r (indented column (trim rest)) ls)
                    (count_indent-indented column (trim rest) (trim-IsSolid rest)) (omega arith)))
                (λ _.
                  scalar_at-Meets number_of n j (suc r.index) (trim rest) (behind_line r ls) le h)))

  item_line-Meets :
      (n j k : ℕ) (node : ℕ → SafeYamlReader → Read YamlValue)
      (entries : ℕ → SafeYamlReader → Read YamlMapping)
      (again : YamlValues → SafeYamlReader → Read YamlValues) (indent : ℕ) (items : YamlValues)
      (r : SafeYamlReader) (l : String) (ls : List String) (s : String)
      → 25 ≤ n
      → IsList n items
      → length r.ahead ≤ k
      → length ls ≤ j
      → NodeMeets n j node
      → RewrittenMeets n j entries
      → ItemsMeet n j k again
      → Meets (Gives (IsList n) k) (item_line number_of node entries again indent items r l ls s)
  item_line-Meets n j k node entries again indent items r l ls s le f all h nodes maps next =
      let P = Gives (IsList n) k in
      Meets-if P _ (is_item s) (value (items, record r { saw_content = true }))
        (λ _.
          Meets-throw_if P _ (leb max_yaml_collection_entries (length (values_of items)))
            too_many_entries (suc r.index) tt
            (λ few.
              Meets-bind (Gives (IsSafe n) j) P
                (item_value number_of node entries (item_rest number_of s) indent r l ls) _
                (item_value-Meets n j node entries (drop_chars 2 s) indent r l ls le h nodes maps)
                (λ (v, r₁) g. next (push v items) r₁ (push-IsList n v items few g.0 f) g.1)))
        (λ _. (f, all))

  pub sequence_turn-Meets :
      (n j k : ℕ) (node : ℕ → SafeYamlReader → Read YamlValue)
      (entries : ℕ → SafeYamlReader → Read YamlMapping)
      (again : YamlValues → SafeYamlReader → Read YamlValues) (indent : ℕ) (items : YamlValues)
      (r : SafeYamlReader) (ls : List String)
      → 25 ≤ n
      → IsList n items
      → length r.ahead ≤ k
      → length ls ≤ suc j
      → (1 ≤ length ls → NodeMeets n j node)
      → (1 ≤ length ls → RewrittenMeets n j entries)
      → (1 ≤ length ls → ItemsMeet n j k again)
      → Meets (Gives (IsList n) k) (sequence_turn number_of node entries again indent items r ls)
  sequence_turn-Meets n j k node entries again indent items r [] le f all h nodes maps next =
      (f, all)
  sequence_turn-Meets n j k node entries again indent items r (l ∷ ls) le f all h nodes maps next =
      let P = Gives (IsList n) k in
      Meets-bind (λ i. count_indent l ≡ some i) P (indent_of r.index l) _
        (indent_of-Meets r.index l)
        (λ i _.
          Meets-if P (value (items, r)) (ltb i indent) _ (λ _. (f, all))
            (λ _. Meets-throw_if P _ (ltb indent i) unexpected_indentation (suc r.index) tt (λ _.
              Meets-bind (λ s. Unit) P (content_of r.index l) _ (content_of-Meets r.index l)
                (λ s _.
                  item_line-Meets n j k node entries again indent items r l ls s le f all
                    (omega arith) (nodes (omega arith)) (maps (omega arith))
                    (next (omega arith))))))
