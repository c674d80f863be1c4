-- ===== src/Pipeline/SafeYaml/BlockEntries.antt =====
-- A turn of the loop of `parseMapping`.
use asterim.Prelude.{
  ℕ, suc, ◌≤◌, Bool, true, false, ◌≡◌, refl, ap, inl, inr, some, List, [], ◌∷◌, String, arith, ltb,
  leb, is_some, length, includes,
}
use asterim.Pipeline.Parser.Values.{YamlValue, YamlMapping, Number, member, keys_of}
use asterim.Pipeline.SafeYaml.Answers.{
  Answer, Problem, throw_if, value, ◌>>◌, assign, max_yaml_collection_entries, refused_keys,
  refused_key, duplicate_key, too_many_entries, item_for_key, unexpected_indentation,
}
use asterim.Pipeline.SafeYaml.Scalars.{split_key}
use asterim.Pipeline.SafeYaml.Lines.{SafeYamlReader, count_indent, indent_of, content_of, is_item}
use asterim.Pipeline.SafeYaml.LinesSafe.{indent_of-Meets, content_of-Meets}
use asterim.Pipeline.SafeYaml.Turns.{
  Read, behind_line, value_after_key, check_key, entry_line, mapping_turn,
}
use asterim.Pipeline.SafeYaml.BlockTurns.{Gives, Room, NodeMeets, value_after_key-Meets}
use asterim.Pipeline.SafeYaml.Safe.{
  IsSafe, IsRefusal, Meets, Meets-bind, Meets-throw_if, Meets-if, IsFields, assign-IsFields,
}
use asterim.Pipeline.SafeYaml.Texts.{split_key-Meets}

three_checks-Meets :
    {B : Type 0} (Q : B → Type 0) (m : Answer B) (a b c : Bool) (p q s : Problem) (line : ℕ)
    → IsRefusal p × IsRefusal q × IsRefusal s
    → (a ≡ false → c ≡ false → Meets Q m)
    → Meets Q ((throw_if a p line >> throw_if b q line >> throw_if c s line) >> m)
three_checks-Meets Q m true b c p q s line r h = r.0
three_checks-Meets Q m false true c p q s line r h = r.1
three_checks-Meets Q m false false true p q s line r h = r.2
three_checks-Meets Q m false false false p q s line r h = h refl refl

module _ (number_of : String → Number) where
  -- `parseMapping` behind an entry, on what `ls` leaves.
  abbrev pub EntriesMeet : ℕ → ℕ → ℕ → (YamlMapping → SafeYamlReader → Read YamlMapping) → Type 0
  EntriesMeet n j k again =
      (m : YamlMapping) (r : SafeYamlReader)
      → IsFields n m
      → length r.ahead ≤ j
      → Meets (Gives (IsFields n) k) (again m r)

  check_key-Meets :
      {B : Type 0} (Q : B → Type 0) (m : Answer B) (key : String) (f : YamlMapping) (line : ℕ)
      → (includes key refused_keys ≡ false
          → leb max_yaml_collection_entries (length (keys_of f)) ≡ false
          → Meets Q m)
      → Meets Q (check_key number_of key f line >> m)
  check_key-Meets Q m key f line h =
      three_checks-Meets Q m (includes key refused_keys) (is_some (member key f))
        (leb max_yaml_collection_entries (length (keys_of f))) (refused_key key) (duplicate_key key)
        too_many_entries line (tt, tt, tt) h

  entry_line-Meets :
      (n j k : ℕ) (node : ℕ → SafeYamlReader → Read YamlValue)
      (again : YamlMapping → SafeYamlReader → Read YamlMapping) (indent : ℕ) (m : YamlMapping)
      (r : SafeYamlReader) (l : String) (ls : List String)
      → 25 ≤ n
      → IsFields n m
      → length ls ≤ j
      → NodeMeets n j node
      → EntriesMeet n j k again
      → Meets (Gives (IsFields n) k) (entry_line number_of node again indent m r l ls)
  entry_line-Meets n j k node again indent m r l ls le f h nodes next =
      let P = Gives (IsFields n) k in
      let line = suc r.index in
      Meets-bind (λ s. Unit) P (content_of r.index l) _ (content_of-Meets r.index l)
        (λ s _. Meets-throw_if P _ (is_item s) item_for_key line tt (λ _.
          Meets-bind (λ (p : String × String). Unit) P (split_key s line) _ (split_key-Meets s line)
            (λ (key, rest) _. check_key-Meets P _ key m line (λ free few.
              Meets-bind (Gives (IsSafe n) j) P
                (value_after_key number_of node rest indent line (behind_line r ls)) _
                (value_after_key-Meets number_of n j node rest indent line (behind_line r ls) le
                  nodes h)
                (λ (v, r₁) g.
                  next (assign key v m) r₁ (assign-IsFields n key v m few free g.0 f) g.1)))))

  Room-lt :
      (indent line_indent k : ℕ) (l : String) (ls : List String)
      → Room indent k (l ∷ ls)
      → count_indent l ≡ some line_indent
      → ltb line_indent indent ≡ true
      → suc (length ls) ≤ k
  Room-lt indent line_indent k l ls (inl h) e lt = h
  Room-lt indent line_indent k l ls (inr (at, h)) e lt = ground arith

  Room-behind :
      (indent k : ℕ) (l : String) (ls : List String) → Room indent k (l ∷ ls) → length ls ≤ k
  Room-behind indent k l ls (inl h) = omega arith
  Room-behind indent k l ls (inr (at, h)) = omega arith

  pub mapping_turn-Meets :
      (n j k : ℕ) (node : ℕ → SafeYamlReader → Read YamlValue)
      (again : YamlMapping → SafeYamlReader → Read YamlMapping) (indent : ℕ) (m : YamlMapping)
      (r : SafeYamlReader) (ls : List String)
      → r.ahead ≡ ls
      → 25 ≤ n
      → IsFields n m
      → Room indent k ls
      → length ls ≤ suc j
      → (1 ≤ length ls → NodeMeets n j node)
      → (1 ≤ length ls → EntriesMeet n j k again)
      → Meets (Gives (IsFields n) k) (mapping_turn number_of node again indent m r ls)
  mapping_turn-Meets n j k node again indent m r [] e le f (inl h) short nodes next =
      (f, omega (arith, ap length e))
  mapping_turn-Meets n j k node again indent m r [] e le f (inr (at, h)) short nodes next =
      absurd at
  mapping_turn-Meets n j k node again indent m r (l ∷ ls) e le f room short nodes next =
      let P = Gives (IsFields n) k in
      Meets-bind (λ i. count_indent l ≡ some i) P (indent_of r.index l) _
        (indent_of-Meets r.index l)
        (λ i at.
          Meets-if P (value (m, r)) (ltb i indent) _
            (λ lt. (f, omega (arith, ap length e, Room-lt indent i k l ls room at lt)))
            (λ _. Meets-throw_if P _ (ltb indent i) unexpected_indentation (suc r.index) tt (λ _.
              entry_line-Meets n j k node again indent m r l ls le f (omega arith)
                (nodes (omega arith)) (next (omega arith)))))
