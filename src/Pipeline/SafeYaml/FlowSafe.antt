-- ===== src/Pipeline/SafeYaml/FlowSafe.antt =====
-- Flow collections are read within the bounds, and the fuel that is given is enough.
use Prim.Native.String.{String}
use asterim.Prelude.{
  ℕ, zero, suc, ◌+◌, ◌-◌, ◌*◌, ◌≤◌, not, ◌≡◌, arith, ltb, is_empty, trim, trim_start, text_length,
}
use asterim.Pipeline.Parser.Values.{YamlValue, YamlValues, nil, YamlMapping, end, Number}
use asterim.Pipeline.SafeYaml.Answers.{
  Answer, value, thrown, max_yaml_depth, flow_too_deep, unexpected_in_flow,
}
use asterim.Pipeline.SafeYaml.Flow.{
  whole_flow, read_flow_value, read_flow_sequence, read_flow_mapping, parse_scalar,
}
use asterim.Pipeline.SafeYaml.Plain.{opens_flow}
use asterim.Pipeline.SafeYaml.Safe.{IsSafe, Meets, Meets-throw_if, Meets-if, IsList, IsFields}
use asterim.Pipeline.SafeYaml.FlowTurns.{Gives, Gives-weaken, value_opened-Meets}
use asterim.Pipeline.SafeYaml.FlowEntries.{item_turn-Meets, entry_turn-Meets}
use asterim.Pipeline.SafeYaml.Texts.{text_length-trim_start, trim_start-IsSolid, single_value-Meets}

module _ (number_of : String → Number) (line : ℕ) where
  mutual
    unfolding read_flow_value

    -- `n` more collections may stand within one another.
    read_flow_value-Meets :
        (f depth n : ℕ) (s : String)
        → depth + n ≡ 25
        → 2 * text_length s + 1 ≤ f
        → Meets (Gives (IsSafe n) (text_length s)) (read_flow_value number_of line f depth s)
    read_flow_value-Meets zero depth n s d h = absurd (omega arith)
    read_flow_value-Meets (suc f) depth n s d h =
        let t = trim_start s in
        let le = text_length-trim_start s in
        Meets-throw_if (Gives (IsSafe n) (text_length s)) _ (ltb max_yaml_depth depth) flow_too_deep
          line tt
          (λ shallow. Gives-weaken (IsSafe n) (text_length t) (text_length s) _ le (
            value_opened-Meets number_of line n (read_flow_sequence number_of line f depth nil)
              (read_flow_mapping number_of line f depth end)
              (λ u. whole_flow number_of line (read_flow_value number_of line f 0 u)) t
              (trim_start-IsSolid s) (ground (arith, d))
              (λ u lt.
                Gives-weaken (IsList (n - 1)) (text_length u) (text_length t) _ (omega arith) (
                  read_flow_sequence-Meets f depth (n - 1) nil u (ground (arith, d))
                    (omega (arith, le)) (omega arith, tt)))
              (λ u lt.
                Gives-weaken (IsFields (n - 1)) (text_length u) (text_length t) _ (omega arith) (
                  read_flow_mapping-Meets f depth (n - 1) end u (ground (arith, d))
                    (omega (arith, le)) (omega arith, tt)))))

    read_flow_sequence-Meets :
        (f depth n : ℕ) (items : YamlValues) (s : String)
        → depth + suc n ≡ 25
        → 2 * text_length s + 2 ≤ f
        → IsList n items
        → Meets
            (Gives (IsList n) (text_length s))
            (read_flow_sequence number_of line f depth items s)
    read_flow_sequence-Meets zero depth n items s d h i = absurd (omega arith)
    read_flow_sequence-Meets (suc f) depth n items s d h i =
        let t = trim_start s in
        let le = text_length-trim_start s in
        Gives-weaken (IsList n) (text_length t) (text_length s) _ le (
          item_turn-Meets number_of line n (read_flow_value number_of line f (suc depth))
            (read_flow_sequence number_of line f depth) items t i
            (read_flow_value-Meets f (suc depth) n t (omega arith) (omega (arith, le)))
            (λ vs u j lt.
              Gives-weaken (IsList n) (text_length u) (text_length t) _ (omega arith)
                (read_flow_sequence-Meets f depth n vs u d (omega (arith, le)) j)))

    read_flow_mapping-Meets :
        (f depth n : ℕ) (m : YamlMapping) (s : String)
        → depth + suc n ≡ 25
        → 2 * text_length s + 2 ≤ f
        → IsFields n m
        → Meets (Gives (IsFields n) (text_length s)) (read_flow_mapping number_of line f depth m s)
    read_flow_mapping-Meets zero depth n m s d h i = absurd (omega arith)
    read_flow_mapping-Meets (suc f) depth n m s d h i =
        let t = trim_start s in
        let le = text_length-trim_start s in
        Gives-weaken (IsFields n) (text_length t) (text_length s) _ le (
          entry_turn-Meets number_of line n (read_flow_value number_of line f (suc depth))
            (read_flow_mapping number_of line f depth) m t i
            (λ u lt.
              Gives-weaken (IsSafe n) (text_length u) (text_length t) _ (omega arith)
                (read_flow_value-Meets f (suc depth) n u (omega arith) (omega (arith, le))))
            (λ g u j lt.
              Gives-weaken (IsFields n) (text_length u) (text_length t) _ (omega arith)
                (read_flow_mapping-Meets f depth n g u d (omega (arith, le)) j)))

  whole_flow-Meets :
      (n k : ℕ) (a : Answer (YamlValue × String))
      → Meets (Gives (IsSafe n) k) a
      → Meets (IsSafe n) (whole_flow number_of line a)
  whole_flow-Meets n k (value (v, rest)) h =
      Meets-throw_if (IsSafe n) _ (not (is_empty (trim_start rest))) unexpected_in_flow line tt
        (λ _. h.0)
  whole_flow-Meets n k (thrown e) h = h

  pub parse_scalar-Meets : (s : String) → Meets (IsSafe 25) (parse_scalar number_of line s)
  unfolding parse_scalar
  parse_scalar-Meets s =
      let t = trim s in
      Meets-if (IsSafe 25) _ (opens_flow t) _
        (λ _.
          whole_flow-Meets 25 (text_length t) _
            (read_flow_value-Meets (2 * text_length t + 1) 0 25 t (omega arith) (omega arith)))
        (λ _. single_value-Meets number_of 25 t line)
