-- ===== src/Pipeline/SafeYaml/BlockTurns.antt =====
-- One turn of the block reader: what it reads and leaves, when what it calls keeps to that.
use asterim.Prelude.{
  ℕ, suc, ◌≤◌, ◌≡◌, sym, ap, subst, ◌⊎◌, inl, inr, some, List, [], ◌∷◌, String, arith, leb,
  is_empty, length,
}
use asterim.Pipeline.Parser.Values.{YamlValue, null, Number}
use asterim.Pipeline.SafeYaml.Answers.{value, thrown}
use asterim.Pipeline.SafeYaml.Flow.{parse_scalar}
use asterim.Pipeline.SafeYaml.FlowSafe.{parse_scalar-Meets}
use asterim.Pipeline.SafeYaml.Lines.{SafeYamlReader, count_indent, indent_of, skip_ignorable}
use asterim.Pipeline.SafeYaml.BlockScalars.{parse_block_scalar}
use asterim.Pipeline.SafeYaml.LinesSafe.{
  Skipped, skip_ignorable-Meets, indent_of-Meets, parse_block_scalar-Meets,
}
use asterim.Pipeline.SafeYaml.Turns.{
  Read, as_text, is_block_header, child_found, child_block, scalar_at, value_after_key,
}
use asterim.Pipeline.SafeYaml.Safe.{IsSafe, IsSafe-mono, Meets, Meets-bind, Meets-if}

-- What was read, and no more than `k` lines behind it.
abbrev pub Gives : {A : Type 0} → (A → Type 0) → ℕ → A × SafeYamlReader → Type 0
Gives P k (a, r) = P a × (length r.ahead ≤ k)

pub Gives-weaken :
    {A : Type 0} (P : A → Type 0) (j k : ℕ) (a : Read A)
    → j ≤ k
    → Meets (Gives P j) a
    → Meets (Gives P k) a
Gives-weaken P j k (value (a, r)) h g = (g.0, omega (arith, g.1))
Gives-weaken P j k (thrown e) h g = g

abbrev pub StartsAt : ℕ → List String → Type 0
StartsAt indent [] = ⊥
StartsAt indent (l ∷ ls) = count_indent l ≡ some indent

-- At most `k` lines, besides one at the indentation.
abbrev pub Room : ℕ → ℕ → List String → Type 0
Room indent k ls = (length ls ≤ k) ⊎ (StartsAt indent ls × (length ls ≤ suc k))

pub Room-le : (indent k : ℕ) (ls : List String) → Room indent k ls → length ls ≤ suc k
Room-le indent k ls (inl h) = omega arith
Room-le indent k ls (inr h) = h.1

pub Skipped-Room :
    (indent k : ℕ) (ls : List String) (r : SafeYamlReader)
    → Room indent k ls
    → Skipped ls r
    → Room indent k r.ahead
Skipped-Room indent k ls r room (inl e) = subst (Room indent k) (sym e) room
Skipped-Room indent k ls r (inl h) (inr fewer) = inl (omega arith)
Skipped-Room indent k ls r (inr h) (inr fewer) = inl (omega (arith, h.1))

pub Skipped-le : (ls : List String) (r : SafeYamlReader) → Skipped ls r → length r.ahead ≤ length ls
Skipped-le ls r (inl e) = omega (arith, ap length e)
Skipped-le ls r (inr h) = omega arith

-- `parseNode` within `n` levels, on at most `k` lines.
abbrev pub NodeMeets : ℕ → ℕ → (ℕ → SafeYamlReader → Read YamlValue) → Type 0
NodeMeets n k node =
    (indent : ℕ) (r : SafeYamlReader)
    → length r.ahead ≤ k
    → Meets (Gives (IsSafe n) k) (node indent r)

child_found-Meets :
    (n k : ℕ) (node : ℕ → SafeYamlReader → Read YamlValue) (parent : ℕ) (r : SafeYamlReader)
    (ls : List String)
    → NodeMeets n k node
    → length r.ahead ≤ k
    → Meets (Gives (IsSafe n) k) (child_found node parent r ls)
child_found-Meets n k node parent r [] m h = (tt, h)
child_found-Meets n k node parent r (l ∷ ls) m h =
    let P = Gives (IsSafe n) k in
    Meets-bind (λ i. count_indent l ≡ some i) P (indent_of r.index l) _ (indent_of-Meets r.index l)
      (λ indent _.
        Meets-if P (value (null, r)) (leb indent parent) _ (λ _. (tt, h)) (λ _. m indent r h))

pub child_block-Meets :
    (n k : ℕ) (node : ℕ → SafeYamlReader → Read YamlValue) (parent : ℕ) (r : SafeYamlReader)
    → NodeMeets n k node
    → length r.ahead ≤ k
    → Meets (Gives (IsSafe n) k) (child_block node parent r)
child_block-Meets n k node parent r m h =
    Meets-bind (Skipped r.ahead) (Gives (IsSafe n) k) (skip_ignorable r) _ (skip_ignorable-Meets r)
      (λ r₁ s.
        child_found-Meets n k node parent r₁ r₁.ahead m (omega (arith, Skipped-le r.ahead r₁ s)))

pub block_scalar-Meets :
    (n k : ℕ) (header : String) (parent line : ℕ) (r : SafeYamlReader)
    → length r.ahead ≤ k
    → Meets (Gives (IsSafe n) k) (as_text (parse_block_scalar header parent line r))
block_scalar-Meets n k header parent line r h =
    Meets-bind (λ (p : String × SafeYamlReader). length p.1.ahead ≤ length r.ahead)
      (Gives (IsSafe n) k) (parse_block_scalar header parent line r) _
      (parse_block_scalar-Meets header parent line r) (λ (s, r₁) g. (tt, omega (arith, g)))

module _ (number_of : String → Number) where
  pub scalar_at-Meets :
      (n k line : ℕ) (s : String) (r : SafeYamlReader)
      → 25 ≤ n
      → length r.ahead ≤ k
      → Meets (Gives (IsSafe n) k) (scalar_at number_of line s r)
  scalar_at-Meets n k line s r le h =
      Meets-bind (IsSafe 25) (Gives (IsSafe n) k) (parse_scalar number_of line s) _
        (parse_scalar-Meets number_of line s) (λ v g. (IsSafe-mono 25 n v le g, h))

  pub value_after_key-Meets :
      (n k : ℕ) (node : ℕ → SafeYamlReader → Read YamlValue) (rest : String) (indent line : ℕ)
      (r : SafeYamlReader)
      → 25 ≤ n
      → NodeMeets n k node
      → length r.ahead ≤ k
      → Meets (Gives (IsSafe n) k) (value_after_key number_of node rest indent line r)
  value_after_key-Meets n k node rest indent line r le m h =
      let P = Gives (IsSafe n) k in
      Meets-if P _ (is_empty rest) _ (λ _. child_block-Meets n k node indent r m h)
        (λ _.
          Meets-if P _ (is_block_header rest) _ (λ _. block_scalar-Meets n k rest indent line r h)
            (λ _. scalar_at-Meets n k line rest r le h))
