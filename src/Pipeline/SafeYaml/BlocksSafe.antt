-- ===== src/Pipeline/SafeYaml/BlocksSafe.antt =====
-- The reader keeps its bounds on every document, and never runs out of fuel.
use asterim.Prelude.{
  ℕ, zero, suc, ◌+◌, ◌-◌, ◌*◌, ◌≤◌, true, false, ◌≡◌, ◌≢◌, refl, map, text_units, ap, subst, ◌⊎◌,
  inl, inr, some, List, [], ◌∷◌, String, arith, ltb, leb, length,
}
use asterim.Pipeline.Parser.Values.{YamlValue, YamlValues, nil, end, YamlMapping, Number}
use asterim.Pipeline.SafeYaml.Answers.{
  Answer, value, thrown, too_deep, max_yaml_depth, content_after_end, too_many_chars,
  too_many_lines, max_yaml_chars, max_yaml_lines, YamlParseError, out_of_fuel,
}
use asterim.Pipeline.SafeYaml.Lines.{
  split_lines, strip_return, SafeYamlReader, count_indent, indent_of, content_of, skip_ignorable,
  is_item,
}
use asterim.Pipeline.SafeYaml.LinesSafe.{
  Skipped, skip_ignorable-Meets, indent_of-Meets, content_of-Meets,
}
use asterim.Pipeline.SafeYaml.Blocks.{
  parse_node, parse_mapping, parse_sequence, block_fuel, finish_read, read_found, read,
  parse_safe_yaml,
}
use asterim.Pipeline.SafeYaml.Turns.{node_found, Read, as_sequence}
use asterim.Pipeline.SafeYaml.BlockEntries.{mapping_turn-Meets}
use asterim.Pipeline.SafeYaml.BlockItems.{as_mapping-Meets, sequence_turn-Meets}
use asterim.Pipeline.SafeYaml.BlockTurns.{
  Skipped-le, Room-le, Gives, Gives-weaken, Room, Skipped-Room,
}
use asterim.Pipeline.SafeYaml.Safe.{
  IsRefusal, IsSafe, Meets, Meets-bind, Meets-throw_if, Meets-if, IsList, IsFields,
}

shallow_le : (depth : ℕ) → ltb max_yaml_depth depth ≡ false → depth ≤ 24
shallow_le depth h = ground arith

as_sequence-Meets :
    (n k : ℕ) (a : Read YamlValues)
    → 1 ≤ n
    → Meets (Gives (IsList (n - 1)) k) a
    → Meets (Gives (IsSafe n) k) (as_sequence a)
as_sequence-Meets n k (value (vs, r)) h g = ((h, g.0.0, g.0.1), g.1)
as_sequence-Meets n k (thrown e) h g = g

module _ (number_of : String → Number) where
  node_found-Meets :
      (n k : ℕ) (items : SafeYamlReader → Read YamlValues)
      (entries : SafeYamlReader → Read YamlMapping) (r : SafeYamlReader) (ls : List String)
      → 1 ≤ n
      → length r.ahead ≤ k
      → ((r₁ : SafeYamlReader) → length r₁.ahead ≤ k → Meets (Gives (IsList (n - 1)) k) (items r₁))
      → ((r₁ : SafeYamlReader)
          → length r₁.ahead ≤ k
          → Meets (Gives (IsFields (n - 1)) k) (entries r₁))
      → Meets (Gives (IsSafe n) k) (node_found number_of items entries r ls)
  node_found-Meets n k items entries r [] one h is es = (tt, h)
  node_found-Meets n k items entries r (l ∷ ls) one h is es =
      let P = Gives (IsSafe n) k in
      let r₁ = record r { saw_content = true } in
      Meets-bind (λ s. Unit) P (content_of r.index l) _ (content_of-Meets r.index l)
        (λ s _.
          Meets-if P _ (is_item s) _ (λ _. as_sequence-Meets n k (items r₁) one (is r₁ h))
            (λ _. as_mapping-Meets n k (entries r₁) one (es r₁ h)))

  mutual
    unfolding parse_node

    -- `n` more collections may stand within one another.
    parse_node-Meets :
        (f depth n k indent : ℕ) (r : SafeYamlReader)
        → depth + n ≡ 50
        → 3 * k + 3 ≤ f
        → length r.ahead ≤ k
        → Meets (Gives (IsSafe n) k) (parse_node number_of f depth indent r)
    parse_node-Meets zero depth n k indent r d h le = absurd (omega arith)
    parse_node-Meets (suc f) depth n k indent r d h le =
        let P = Gives (IsSafe n) k in
        Meets-throw_if P _ (ltb max_yaml_depth depth) too_deep (suc r.index) tt (λ shallow.
          Meets-bind (Skipped r.ahead) P (skip_ignorable r) _ (skip_ignorable-Meets r) (λ r₁ s.
            node_found-Meets n k (parse_sequence number_of f depth indent nil)
              (parse_mapping number_of f depth indent end) r₁ r₁.ahead
              (omega (arith, shallow_le depth shallow)) (omega (arith, Skipped-le r.ahead r₁ s))
              (λ r₂ g.
                parse_sequence-Meets f depth (n - 1) k indent nil r₂
                  (omega (arith, shallow_le depth shallow)) (shallow_le depth shallow) (omega arith)
                  (omega arith, tt) g)
              (λ r₂ g.
                parse_mapping-Meets f depth (n - 1) k indent end r₂
                  (omega (arith, shallow_le depth shallow)) (shallow_le depth shallow)
                  (omega (arith, g)) (omega arith, tt) (inl g))))

    parse_mapping-Meets :
        (f depth n k indent : ℕ) (m : YamlMapping) (r : SafeYamlReader)
        → depth + suc n ≡ 50
        → depth ≤ 24
        → 3 * length r.ahead + 1 ≤ f
        → IsFields n m
        → Room indent k r.ahead
        → Meets (Gives (IsFields n) k) (parse_mapping number_of f depth indent m r)
    parse_mapping-Meets zero depth n k indent m r d shallow h i room = absurd (omega arith)
    parse_mapping-Meets (suc f) depth n k indent m r d shallow h i room =
        let P = Gives (IsFields n) k in
        Meets-bind (Skipped r.ahead) P (skip_ignorable r) _ (skip_ignorable-Meets r) (λ r₁ s.
          let j = length r₁.ahead - 1 in
          let fewer = Skipped-le r.ahead r₁ s in
          let room₁ = Skipped-Room indent k r.ahead r₁ room s in
          let most = Room-le indent k r₁.ahead room₁ in
          mapping_turn-Meets number_of n j k (parse_node number_of f (suc depth))
            (parse_mapping number_of f depth indent) indent m r₁ r₁.ahead refl (omega arith) i room₁
            (omega arith)
            (λ some_line column r₂ g.
              parse_node-Meets f (suc depth) n j column r₂ (omega arith) (omega arith) g)
            (λ some_line m₂ r₂ i₂ g.
              parse_mapping-Meets f depth n k indent m₂ r₂ d shallow (omega arith) i₂
                (inl (omega arith))))

    parse_sequence-Meets :
        (f depth n k indent : ℕ) (items : YamlValues) (r : SafeYamlReader)
        → depth + suc n ≡ 50
        → depth ≤ 24
        → 3 * k + 2 ≤ f
        → IsList n items
        → length r.ahead ≤ k
        → Meets (Gives (IsList n) k) (parse_sequence number_of f depth indent items r)
    parse_sequence-Meets zero depth n k indent items r d shallow h i le = absurd (omega arith)
    parse_sequence-Meets (suc f) depth n k indent items r d shallow h i le =
        let P = Gives (IsList n) k in
        Meets-bind (Skipped r.ahead) P (skip_ignorable r) _ (skip_ignorable-Meets r) (λ r₁ s.
          let j = length r₁.ahead - 1 in
          let fewer = Skipped-le r.ahead r₁ s in
          sequence_turn-Meets number_of n j k (parse_node number_of f (suc depth)) _
            (parse_sequence number_of f depth indent) indent items r₁ r₁.ahead (omega arith) i
            (omega arith) (omega arith)
            (λ some_line column r₂ g.
              parse_node-Meets f (suc depth) n j column r₂ (omega arith) (omega arith) g)
            (λ some_line column r₂ at g.
              Meets-throw_if (Gives (IsFields (n - 1)) j) _ (ltb max_yaml_depth (suc depth))
                too_deep (suc r₂.index) tt
                (λ deep.
                  parse_mapping-Meets f (suc depth) (n - 1) j column end r₂ (omega arith)
                    (shallow_le (suc depth) deep) (omega arith) (omega arith, tt) (inr (at, g))))
            (λ some_line vs r₂ i₂ g.
              Gives-weaken (IsList n) j k _ (omega arith)
                (parse_sequence-Meets f depth n j indent vs r₂ d shallow (omega arith) i₂ g)))

  finish_read-Meets :
      (n : ℕ) (v : YamlValue) (r : SafeYamlReader)
      → IsSafe n v
      → Meets (IsSafe n) (finish_read number_of (v, r))
  finish_read-Meets n v r h =
      Meets-bind (Skipped r.ahead) (IsSafe n) (skip_ignorable r) _ (skip_ignorable-Meets r) (λ r₁ _.
        Meets-throw_if (IsSafe n) _ (leb 1 (length r₁.ahead)) content_after_end (suc r₁.index) tt
          (λ _. h))

  read_found-Meets :
      (r : SafeYamlReader) (ls : List String)
      → r.ahead ≡ ls
      → Meets (IsSafe 50) (read_found number_of r ls)
  read_found-Meets r [] e = tt
  read_found-Meets r (l ∷ ls) e =
      let k = length (l ∷ ls) in
      Meets-bind (λ i. count_indent l ≡ some i) (IsSafe 50) (indent_of r.index l) _
        (indent_of-Meets r.index l)
        (λ indent _.
          Meets-bind (Gives (IsSafe 50) k) (IsSafe 50)
            (parse_node number_of (block_fuel number_of (l ∷ ls)) 0 indent r) _
            (parse_node-Meets (block_fuel number_of (l ∷ ls)) 0 50 k indent r (omega arith)
              (omega arith) (omega (arith, ap length e)))
            (λ (v, r₁) g. finish_read-Meets 50 v r₁ g.0))

  read-Meets : (ls : List String) → Meets (IsSafe 50) (read number_of ls)
  unfolding read
  read-Meets ls =
      let r : SafeYamlReader = record {
        index = 0;
        ahead = ls;
        saw_document_start = false;
        saw_content = false;
      } in
      Meets-bind (Skipped ls) (IsSafe 50) (skip_ignorable r) _ (skip_ignorable-Meets r)
        (λ r₁ _. read_found-Meets r₁ r₁.ahead refl)

  parse_safe_yaml-Meets : (source : String) → Meets (IsSafe 50) (parse_safe_yaml number_of source)
  unfolding parse_safe_yaml
  parse_safe_yaml-Meets source =
      let lines = map strip_return (split_lines source) in
      Meets-throw_if (IsSafe 50) _ (ltb max_yaml_chars (text_units source))
        (too_many_chars (text_units source)) 0 tt
        (λ _.
          Meets-throw_if (IsSafe 50) _ (ltb max_yaml_lines (length lines))
            (too_many_lines (length lines)) 0 tt (λ _. read-Meets lines))

-- In every value that is read, no mapping and no list has more than 500 entries, at most 50 of
-- them stand within one another, and in each mapping the keys differ and none is `__proto__`,
-- `constructor` or `prototype`.
pub parse_safe_yaml-IsSafe :
    (number_of : String → Number) (source : String) (v : YamlValue)
    → parse_safe_yaml number_of source ≡ value v
    → IsSafe 50 v
parse_safe_yaml-IsSafe number_of source v e =
    subst (Meets (IsSafe 50)) e (parse_safe_yaml-Meets number_of source)

answered :
    (a : Answer YamlValue)
    → Meets (IsSafe 50) a
    → ((v : YamlValue) × (a ≡ value v))
      ⊎ ((e : YamlParseError) × (a ≡ thrown e) × (e.problem ≢ out_of_fuel))
answered (value v) h = inl (v, refl)
answered (thrown e) h = inr (e, refl, λ out. subst IsRefusal out h)

-- The reader ends on every text, with a value or with a refusal of the document: its loops and
-- its recursion never run out of fuel.
pub parse_safe_yaml_ends :
    (number_of : String → Number) (source : String)
    → ((v : YamlValue) × (parse_safe_yaml number_of source ≡ value v))
      ⊎ ((e : YamlParseError) × (parse_safe_yaml number_of source ≡ thrown e)
          × (e.problem ≢ out_of_fuel))
parse_safe_yaml_ends number_of source =
    answered (parse_safe_yaml number_of source) (parse_safe_yaml-Meets number_of source)
