-- ===== src/Pipeline/SafeYaml/RoundTrip.antt =====
-- The reader reads back every flat document that the printer writes.
use asterim.Prelude.{
  ℕ, zero, suc, ◌+◌, ◌*◌, ◌≤◌, Bool, true, false, ◌≡◌, refl, ap, sym, ◌∙◌, none, List, [], ◌∷◌, map,
  arith, String, ltb, leb, length, includes, text_units,
}
use asterim.Pipeline.Parser.Values.{
  YamlValue, text, mapping, nil, YamlMapping, end, member, keys_of, Number,
}
use asterim.Pipeline.SafeYaml.Answers.{
  value, ◌>>=◌, assign, refused_keys, max_yaml_chars, max_yaml_lines, max_yaml_collection_entries,
}
use asterim.Pipeline.SafeYaml.Lines.{SafeYamlReader, split_lines, strip_return, skip_ignorable}
use asterim.Pipeline.SafeYaml.Blocks.{
  parse_mapping, parse_node, parse_sequence, finish_read, read_found, read, parse_safe_yaml,
}
use asterim.Pipeline.SafeYaml.Turns.{Read, behind_line, mapping_turn, node_found, as_mapping}
use asterim.Pipeline.SafeYaml.Printed.{parse_scalar-quoted}
use asterim.Pipeline.SafeYaml.PrintedLines.{
  Field, line_of, print, content_of-line, split_key-line, split_lines-print,
}
use asterim.Pipeline.SafeYaml.Safe.{length-assign}
use asterim.Pipeline.SafeYaml.Fields.{
  fields_of, AreDistinct, Apart, assign-Apart, end-Apart, joined, joined-assign, lines_of,
  count_indent-line, reader, skip-lines, skip-end, skip-done, length-lines, strip_return-lines,
  joined_end, has_room,
}

module _ (number_of : String → Number) where
  mapping_turn-line :
      (node : ℕ → SafeYamlReader → Read YamlValue)
      (again : YamlMapping → SafeYamlReader → Read YamlMapping) (m : YamlMapping)
      (r : SafeYamlReader) (e : Field) (ls : List String)
      → includes e.0 refused_keys ≡ false
      → member e.0 m ≡ none
      → leb max_yaml_collection_entries (length (keys_of m)) ≡ false
      → mapping_turn number_of node again 0 m r (line_of e "" ∷ ls)
        ≡ again (assign e.0 (text e.1) m) (behind_line r ls)
  mapping_turn-line node again m r e ls free absent few =
      rw
        (
          count_indent-line e,
          content_of-line r.index e,
          split_key-line e (suc r.index),
          free,
          absent,
          few,
          parse_scalar-quoted number_of (suc r.index) e.1,
        )
        refl

  parse_mapping_lem :
      (f : ℕ) (m : YamlMapping) (r : SafeYamlReader)
      → parse_mapping number_of (suc f) 0 0 m r ≡ (
          skip_ignorable r >>= λ r₁.
          mapping_turn number_of
            (parse_node number_of f 1)
            (parse_mapping number_of f 0 0)
            0
            m
            r₁
            r₁.ahead)
  unfolding parse_node
  parse_mapping_lem f m r = refl

  parse_mapping_step :
      (f : ℕ) (m : YamlMapping) (r r₁ : SafeYamlReader)
      → skip_ignorable r ≡ value r₁
      → parse_mapping number_of (suc f) 0 0 m r
        ≡ mapping_turn number_of
            (parse_node number_of f 1)
            (parse_mapping number_of f 0 0)
            0
            m
            r₁
            r₁.ahead
  parse_mapping_step f m r r₁ h = parse_mapping_lem f m r ∙ rw h refl

  parse_mapping-lines :
      (f : ℕ) (m : YamlMapping) (es : List Field) (i : ℕ) (started content : Bool)
      → length es + 1 ≤ f
      → length (keys_of m) + length es ≤ max_yaml_collection_entries
      → Apart m es
      → AreDistinct es
      → (r : SafeYamlReader) × (r.ahead ≡ [])
        × (parse_mapping number_of f 0 0 m (reader i (lines_of es) started content)
            ≡ value (joined m (fields_of es), r))
  parse_mapping-lines zero m es i started content h few a d = absurd (omega arith)
  parse_mapping-lines (suc f) m [] i started content h few a d = (
    reader i [] started content,
    refl,
    parse_mapping_step f m _ _ (skip-end i started content)
        ∙ ap (λ t. value (t, reader i [] started content)) (sym (joined_end m)),
  )
  parse_mapping-lines (suc f) m ((k, v) ∷ es) i started content h few a d =
      let (r, done, e) =
        parse_mapping-lines f (assign k (text v) m) es (suc i) started true (omega arith)
          (omega (arith, length-assign k (text v) m)) (assign-Apart k v m es a.1 d.1) d.2 in
      (
        r,
        done,
        parse_mapping_step f m _ _ (skip-lines (k, v) (lines_of es) i started content)
            ∙ mapping_turn-line (parse_node number_of f 1) (parse_mapping number_of f 0 0) m
                (reader i (lines_of ((k, v) ∷ es)) started content) (k, v) (lines_of es) d.0 a.0
                (has_room _ (omega arith))
            ∙ e
            ∙ ap (λ t. value (t, r)) (joined-assign k v m es a.0),
      )

  parse_node_lem :
      (f : ℕ) (r : SafeYamlReader)
      → parse_node number_of (suc f) 0 0 r ≡ (
          skip_ignorable r >>= λ r₁.
          node_found number_of
            (parse_sequence number_of f 0 0 nil)
            (parse_mapping number_of f 0 0 end)
            r₁
            r₁.ahead)
  unfolding parse_node
  parse_node_lem f r = refl

  parse_node-lines :
      (f : ℕ) (e : Field) (es : List Field)
      → parse_node number_of (suc f) 0 0 (reader 0 (lines_of (e ∷ es)) false false)
        ≡ as_mapping (parse_mapping number_of f 0 0 end (reader 0 (lines_of (e ∷ es)) false true))
  parse_node-lines f e es =
      parse_node_lem f _ ∙ rw (skip-lines e (lines_of es) 0 false false, content_of-line 0 e) refl

  finish_read-done :
      (v : YamlValue) (r : SafeYamlReader) → r.ahead ≡ [] → finish_read number_of (v, r) ≡ value v
  finish_read-done v r h = rw (skip-done r h) refl

  read_found-lines :
      (e : Field) (es : List Field) (r : SafeYamlReader)
      → read_found number_of r (lines_of (e ∷ es)) ≡ (
          parse_node number_of (suc (3 * length (lines_of (e ∷ es)) + 2)) 0 0 r
          >>= finish_read number_of)
  read_found-lines e es r =
      rw (count_indent-line e)
        (ap (λ f. parse_node number_of f 0 0 r >>= finish_read number_of) (omega arith))

  read_lem :
      (ls : List String)
      → read number_of ls
        ≡ (skip_ignorable (reader 0 ls false false) >>= λ r. read_found number_of r r.ahead)
  unfolding read
  read_lem ls = refl

  read-lines :
      (e : Field) (es : List Field)
      → length (e ∷ es) ≤ max_yaml_collection_entries
      → AreDistinct (e ∷ es)
      → read number_of (lines_of (e ∷ es)) ≡ value (mapping (fields_of (e ∷ es)))
  read-lines e es few d =
      let ls = lines_of (e ∷ es) in
      let f = 3 * length ls + 2 in
      let m = fields_of (e ∷ es) in
      let (r, done, p) =
        parse_mapping-lines f end (e ∷ es) 0 false true (omega (arith, length-lines (e ∷ es)))
          (omega arith) (end-Apart (e ∷ es)) d in
      read_lem ls
      ∙ ap (λ a. a >>= λ r₁. read_found number_of r₁ r₁.ahead)
          (skip-lines e (lines_of es) 0 false false)
      ∙ read_found-lines e es (reader 0 ls false false)
      ∙ ap (λ a. a >>= finish_read number_of) (parse_node-lines f e es ∙ ap (λ a. as_mapping a) p)
      ∙ finish_read-done (mapping m) r done

parse_safe_yaml_step :
    (number_of : String → Number) (source : String) (ls : List String)
    → ltb max_yaml_chars (text_units source) ≡ false
    → map strip_return (split_lines source) ≡ ls
    → ltb max_yaml_lines (length ls) ≡ false
    → parse_safe_yaml number_of source ≡ read number_of ls
unfolding parse_safe_yaml
parse_safe_yaml_step number_of source ls a b c = rw (a, b, c) refl

within : (m n : ℕ) → n ≤ m → ltb m n ≡ false
within m n h = ground arith

-- A document that writes fields as lines with both texts in double quotes is read back as those
-- fields, whatever characters the texts have, comments and colons included, when the keys differ
-- and none is refused, there are at most 500 fields, and the document is no longer than allowed.
pub parse_safe_yaml-print :
    (number_of : String → Number) (e : Field) (es : List Field)
    → length (e ∷ es) ≤ max_yaml_collection_entries
    → AreDistinct (e ∷ es)
    → text_units (print (e ∷ es)) ≤ max_yaml_chars
    → parse_safe_yaml number_of (print (e ∷ es)) ≡ value (mapping (fields_of (e ∷ es)))
parse_safe_yaml-print number_of e es few d short =
    parse_safe_yaml_step number_of (print (e ∷ es)) (lines_of (e ∷ es)) (within _ _ short)
      (ap (map strip_return) (split_lines-print e es) ∙ strip_return-lines (e ∷ es))
      (within _ _ (omega (arith, length-lines (e ∷ es))))
    ∙ read-lines number_of e es few d
