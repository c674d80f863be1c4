-- ===== src/Pipeline/SafeYaml/FlowEntries.antt =====
-- The entries of a flow collection: what a turn of its loop reads and leaves.
use Prim.Native.Char.{code}
use Prim.Native.String.{String, [], ◌∷◌}
use asterim.Prelude.{
  ℕ, suc, ◌≤◌, true, false, ◌≡◌, arith, ◌==◌, leb, trim, trim_start, text_length, length, includes,
}
use asterim.Pipeline.Parser.Values.{YamlValue, YamlValues, YamlMapping, Number, values_of, keys_of}
use asterim.Pipeline.SafeYaml.Answers.{
  Answer, value, ◌>>=◌, ◌>>◌, push, assign, max_yaml_collection_entries, refused_keys, refused_key,
  too_many_entries,
}
use asterim.Pipeline.SafeYaml.Scalars.{unquote, guard_key}
use asterim.Pipeline.SafeYaml.Flow.{
  flow_scalar_text, behind_colon, behind_entry, closes_sequence, closes_mapping, item_turn,
  entry_turn,
}
use asterim.Pipeline.SafeYaml.Safe.{
  IsSafe, Meets, Meets-bind, Meets-throw_if, Meets-if, IsList, IsFields, push-IsList,
  assign-IsFields,
}
use asterim.Pipeline.SafeYaml.FlowTurns.{Gives, Leaves, flow_scalar_text-Leaves, behind_entry-Meets}
use asterim.Pipeline.SafeYaml.Texts.{text_length-trim_start, unquote-Meets}

module _ (number_of : String → Number) (line : ℕ) where
  pub item_turn-Meets :
      (n : ℕ) (read : String → Answer (YamlValue × String))
      (again : YamlValues → String → Answer (YamlValues × String)) (items : YamlValues) (s : String)
      → IsList n items
      → Meets (Gives (IsSafe n) (text_length s)) (read s)
      → ((vs : YamlValues) (t : String)
          → IsList n vs
          → suc (text_length t) ≤ text_length s
          → Meets (Gives (IsList n) (text_length s)) (again vs t))
      → Meets (Gives (IsList n) (text_length s)) (item_turn number_of line read again items s)
  unfolding text_length
  item_turn-Meets n read again items [] h r next = tt
  item_turn-Meets n read again items (c ∷ s) h r next =
      let k = text_length (c ∷ s) in
      let P = Gives (IsList n) k in
      Meets-if P (value (items, s)) (closes_sequence number_of line c) _ (λ _. (h, omega arith))
        (λ _.
          Meets-throw_if P _ (leb max_yaml_collection_entries (length (values_of items)))
            too_many_entries line tt
            (λ few. Meets-bind (Gives (IsSafe n) k) P (read (c ∷ s)) _ r (λ (v, rest) g.
              behind_entry-Meets number_of line (IsList n) k (closes_sequence number_of line) again
                (push v items) (trim_start rest) (push-IsList n v items few g.0 h)
                (omega (arith, g.1, text_length-trim_start rest))
                (λ t le. next (push v items) t (push-IsList n v items few g.0 h) le))))

  behind_colon-Meets :
      (k : ℕ) (s : String)
      → text_length s ≤ k
      → Meets (λ t. suc (text_length t) ≤ k) (behind_colon s line)
  unfolding text_length
  behind_colon-Meets k [] h = tt
  behind_colon-Meets k (c ∷ s) h = Meets-if _ _ (code c == b':') _ (λ _. h) (λ _. tt)

  guard_key-Meets :
      {B : Type 0} (Q : B → Type 0) (m : Answer B) (name : String)
      → (includes name refused_keys ≡ false → Meets Q m)
      → Meets Q (guard_key name line >> m)
  guard_key-Meets Q m name h =
      Meets-throw_if Q m (includes name refused_keys) (refused_key name) line tt h

  entry_named-Meets :
      (n k : ℕ) (again : YamlMapping → String → Answer (YamlMapping × String)) (m : YamlMapping)
      (v : YamlValue) (key rest : String)
      → leb max_yaml_collection_entries (length (keys_of m)) ≡ false
      → IsFields n m
      → IsSafe n v
      → text_length rest ≤ k
      → ((f : YamlMapping) (t : String)
          → IsFields n f
          → suc (text_length t) ≤ k
          → Meets (Gives (IsFields n) k) (again f t))
      → Meets (Gives (IsFields n) k) (
          unquote key line >>= λ name.
          guard_key name line
          >> behind_entry number_of line
              (closes_mapping number_of line)
              again
              (assign name v m)
              (trim_start rest))
  entry_named-Meets n k again m v key rest few h g le next =
      Meets-bind (λ s. Unit) (Gives (IsFields n) k) (unquote key line) _ (unquote-Meets key line)
        (λ name _. guard_key-Meets (Gives (IsFields n) k) _ name (λ free.
          let f = assign-IsFields n name v m few free g h in
          behind_entry-Meets number_of line (IsFields n) k (closes_mapping number_of line) again
            (assign name v m) (trim_start rest) f (omega (arith, le, text_length-trim_start rest))
            (λ t lt. next (assign name v m) t f lt)))

  pub entry_turn-Meets :
      (n : ℕ) (read : String → Answer (YamlValue × String))
      (again : YamlMapping → String → Answer (YamlMapping × String)) (m : YamlMapping) (s : String)
      → IsFields n m
      → ((t : String)
          → suc (text_length t) ≤ text_length s
          → Meets (Gives (IsSafe n) (text_length s)) (read t))
      → ((f : YamlMapping) (t : String)
          → IsFields n f
          → suc (text_length t) ≤ text_length s
          → Meets (Gives (IsFields n) (text_length s)) (again f t))
      → Meets (Gives (IsFields n) (text_length s)) (entry_turn number_of line read again m s)
  unfolding text_length
  entry_turn-Meets n read again m [] h r next = tt
  entry_turn-Meets n read again m (c ∷ s) h r next =
      let k = text_length (c ∷ s) in
      let P = Gives (IsFields n) k in
      Meets-if P (value (m, s)) (closes_mapping number_of line c) _ (λ _. (h, omega arith))
        (λ _.
          Meets-throw_if P _ (leb max_yaml_collection_entries (length (keys_of m))) too_many_entries
            line tt
            (λ few.
              Meets-bind (Leaves k) P (flow_scalar_text true (c ∷ s) line) _
                (flow_scalar_text-Leaves true (c ∷ s) line)
                (λ (key, rest) le.
                  Meets-bind (λ t. suc (text_length t) ≤ k) P (behind_colon (trim_start rest) line)
                    _
                    (behind_colon-Meets k (trim_start rest)
                      (omega (arith, le, text_length-trim_start rest)))
                    (λ rest₁ le₁.
                      Meets-bind (Gives (IsSafe n) k) P (read rest₁) _ (r rest₁ le₁)
                        (λ (v, rest₂) g.
                          entry_named-Meets n k again m v (trim key) rest₂ few h g.0 g.1 next)))))
