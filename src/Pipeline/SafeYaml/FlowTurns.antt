-- ===== src/Pipeline/SafeYaml/FlowTurns.antt =====
-- One turn of the flow reader: what it reads and leaves, when what it calls keeps to that.
use Prim.Native.Char.{Char, code}
use Prim.Native.String.{String, [], ◌∷◌}
use asterim.Prelude.{
  ℕ, suc, ◌-◌, ◌≤◌, Bool, false, ◌≡◌, refl, Option, none, some, inl, inr, arith, ◌==◌, is_space,
  trim, text_length, Bool-cases,
}
use asterim.Pipeline.Parser.Values.{YamlValue, YamlValues, YamlMapping, Number}
use asterim.Pipeline.SafeYaml.Answers.{Answer, value, thrown, ◌>>=◌}
use asterim.Pipeline.SafeYaml.Scalars.{is_quote}
use asterim.Pipeline.SafeYaml.Flow.{
  take_quoted, take_plain, is_stop, flow_scalar_text, quoted_text, scalar_by, scalar_in_flow,
  as_sequence, as_mapping, value_opened, behind_entry,
}
use asterim.Pipeline.SafeYaml.Plain.{opens_flow, opens_sequence, opens_mapping, single_value}
use asterim.Pipeline.SafeYaml.Safe.{
  IsSafe, Meets, Meets-bind, Meets-if, Meets-both, IsList, IsFields,
}
use asterim.Pipeline.SafeYaml.Texts.{
  IsSolid, trim_solid, LeavesOf, weaken, take_quoted-LeavesOf, take_plain_leaves,
  single_value-Meets,
}

-- What a scalar of a flow collection leaves.
abbrev pub Leaves : ℕ → String × String → Type 0
Leaves n (t, rest) = text_length rest ≤ n

quoted_text-Meets :
    (n : ℕ) (c : Char) (o : Option (String × String)) (line : ℕ)
    → LeavesOf n o
    → Meets (Leaves n) (quoted_text c o line)
quoted_text-Meets n c none line h = tt
quoted_text-Meets n c (some (t, rest)) line h = h

pub flow_scalar_text-Leaves :
    (is_key : Bool) (s : String) (line : ℕ)
    → Meets (Leaves (text_length s)) (flow_scalar_text is_key s line)
unfolding flow_scalar_text text_length
flow_scalar_text-Leaves is_key [] line = omega arith
flow_scalar_text-Leaves is_key (c ∷ s) line =
    Meets-if _ _ (is_quote c) (value (take_plain is_key (c ∷ s)))
      (λ _.
        quoted_text-Meets (suc (text_length s)) c (take_quoted (code c) false s) line
          (weaken _ _ (take_quoted-LeavesOf (code c) false s)))
      (λ _. take_plain_leaves is_key (c ∷ s))

abbrev IsClosed : String × String → Type 0
IsClosed (t, rest) = opens_flow (trim t) ≡ false

IsClosed-behind :
    (c : Char) (t rest : String)
    → is_space c ≡ false
    → opens_flow (c ∷ []) ≡ false
    → IsClosed (c ∷ t, rest)
IsClosed-behind c t rest h k = rw (trim_solid c t h) k

quoted_text-IsClosed :
    (c : Char) (o : Option (String × String)) (line : ℕ)
    → is_space c ≡ false
    → opens_flow (c ∷ []) ≡ false
    → Meets IsClosed (quoted_text c o line)
quoted_text-IsClosed c none line h k = tt
quoted_text-IsClosed c (some (t, rest)) line h k = IsClosed-behind c t rest h k

take_plain-IsClosed :
    (c : Char) (s : String)
    → is_space c ≡ false
    → opens_flow (c ∷ []) ≡ false
    → IsClosed (take_plain false (c ∷ s))
unfolding take_plain
take_plain-IsClosed c s h k = elim (Bool-cases (is_stop false c)) [
  | inl e ↦ rw e (unfold trim in refl)
  | inr e ↦ rw e (IsClosed-behind c (take_plain false s).0 (take_plain false s).1 h k)
]

flow_scalar_text-IsClosed :
    (c : Char) (s : String) (line : ℕ)
    → is_space c ≡ false
    → opens_flow (c ∷ []) ≡ false
    → Meets IsClosed (flow_scalar_text false (c ∷ s) line)
unfolding flow_scalar_text
flow_scalar_text-IsClosed c s line h k =
    Meets-if _ _ (is_quote c) (value (take_plain false (c ∷ s)))
      (λ _. quoted_text-IsClosed c (take_quoted (code c) false s) line h k)
      (λ _. take_plain-IsClosed c s h k)

-- What was read, and no more text than `k` characters behind it.
abbrev pub Gives : {A : Type 0} → (A → Type 0) → ℕ → A × String → Type 0
Gives P k (a, rest) = P a × (text_length rest ≤ k)

module _ {A : Type 0} (P : A → Type 0) where
  pub Gives-weaken :
      (j k : ℕ) (a : Answer (A × String)) → j ≤ k → Meets (Gives P j) a → Meets (Gives P k) a
  Gives-weaken j k (value (a, rest)) h g = (g.0, omega (arith, g.1))
  Gives-weaken j k (thrown e) h g = g

module _ (number_of : String → Number) (line : ℕ) where
  as_sequence-Meets :
      (n k : ℕ) (a : Answer (YamlValues × String))
      → 1 ≤ n
      → Meets (Gives (IsList (n - 1)) k) a
      → Meets (Gives (IsSafe n) k) (as_sequence number_of line a)
  as_sequence-Meets n k (value (vs, rest)) h g = ((h, g.0.0, g.0.1), g.1)
  as_sequence-Meets n k (thrown e) h g = g

  as_mapping-Meets :
      (n k : ℕ) (a : Answer (YamlMapping × String))
      → 1 ≤ n
      → Meets (Gives (IsFields (n - 1)) k) a
      → Meets (Gives (IsSafe n) k) (as_mapping number_of line a)
  as_mapping-Meets n k (value (m, rest)) h g = ((h, g.0.0, g.0.1), g.1)
  as_mapping-Meets n k (thrown e) h g = g

  scalar_read-Meets :
      (n k : ℕ) (flow : String → Answer YamlValue) (t rest : String)
      → opens_flow (trim t) ≡ false
      → text_length rest ≤ k
      → Meets (Gives (IsSafe n) k) (scalar_by number_of line flow (trim t) >>= λ v. value (v, rest))
  scalar_read-Meets n k flow t rest closed le = rw closed (
      Meets-bind (IsSafe n) (Gives (IsSafe n) k) (single_value number_of (trim t) line) _
        (single_value-Meets number_of n (trim t) line) (λ v h. (h, le)))

  scalar_in_flow-Meets :
      (n : ℕ) (flow : String → Answer YamlValue) (s : String)
      → Meets IsClosed (flow_scalar_text false s line)
      → Meets (Gives (IsSafe n) (text_length s)) (scalar_in_flow number_of line flow s)
  scalar_in_flow-Meets n flow s closed =
      Meets-bind (λ p. Leaves (text_length s) p × IsClosed p) (Gives (IsSafe n) (text_length s))
        (flow_scalar_text false s line) _
        (Meets-both (Leaves (text_length s)) IsClosed (flow_scalar_text false s line)
          (flow_scalar_text-Leaves false s line) closed)
        (λ (t, rest) h. scalar_read-Meets n (text_length s) flow t rest h.1 h.0)

  pub value_opened-Meets :
      (n : ℕ) (items : String → Answer (YamlValues × String))
      (entries : String → Answer (YamlMapping × String)) (flow : String → Answer YamlValue)
      (s : String)
      → IsSolid s
      → 1 ≤ n
      → ((t : String)
          → suc (text_length t) ≤ text_length s
          → Meets (Gives (IsList (n - 1)) (text_length s)) (items t))
      → ((t : String)
          → suc (text_length t) ≤ text_length s
          → Meets (Gives (IsFields (n - 1)) (text_length s)) (entries t))
      → Meets (Gives (IsSafe n) (text_length s)) (value_opened number_of line items entries flow s)
  unfolding text_length
  value_opened-Meets n items entries flow [] solid h is es =
      scalar_in_flow-Meets n flow [] (unfold flow_scalar_text trim in refl)
  value_opened-Meets n items entries flow (c ∷ s) solid h is es =
      Meets-if _ _ (opens_sequence c) _
        (λ _. as_sequence-Meets n _ (items s) h (is s (omega arith)))
        (λ a.
          Meets-if _ _ (opens_mapping c) _
            (λ _. as_mapping-Meets n _ (entries s) h (es s (omega arith)))
            (λ b.
              scalar_in_flow-Meets n flow (c ∷ s)
                (flow_scalar_text-IsClosed c s line solid (rw (a, b) refl))))

  pub behind_entry-Meets :
      {A : Type 0} (P : A → Type 0) (k : ℕ) (closes : Char → Bool)
      (again : A → String → Answer (A × String)) (a : A) (s : String)
      → P a
      → text_length s ≤ k
      → ((t : String) → suc (text_length t) ≤ k → Meets (Gives P k) (again a t))
      → Meets (Gives P k) (behind_entry number_of line closes again a s)
  unfolding text_length
  behind_entry-Meets P k closes again a [] h le next = tt
  behind_entry-Meets P k closes again a (c ∷ s) h le next =
      Meets-if _ _ (code c == b',') _ (λ _. next s (omega arith))
        (λ _. Meets-if _ _ (closes c) _ (λ _. (h, omega arith)) (λ _. tt))
