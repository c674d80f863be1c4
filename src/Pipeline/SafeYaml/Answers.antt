-- ===== src/Pipeline/SafeYaml/Answers.antt =====
-- What the reader throws, its bounds, and the values that it builds.
use asterim.Prelude.{ℕ, String, List, [], ◌∷◌, Bool, true, false, if◌then◌else◌, str_eq}
use asterim.Pipeline.Parser.Values.{YamlValue, YamlValues, nil, cons, YamlMapping, end, entry}

abbrev pub max_yaml_chars : ℕ
max_yaml_chars = 262144

abbrev pub max_yaml_lines : ℕ
max_yaml_lines = 5000

abbrev pub max_yaml_depth : ℕ
max_yaml_depth = 24

abbrev pub max_yaml_collection_entries : ℕ
max_yaml_collection_entries = 500

abbrev pub refused_keys : List String
refused_keys = "__proto__" ∷ "constructor" ∷ "prototype" ∷ []

pub data Problem : Type 0 where
  too_many_chars too_many_lines : ℕ → Problem
  content_after_end tab_indentation second_document too_deep flow_too_deep : Problem
  unexpected_indentation item_for_key too_many_entries : Problem
  refused_key duplicate_key : String → Problem
  empty_key no_key unterminated_string refused_sigil : Problem
  unsupported_escape bad_block_header : String → Problem
  unexpected_in_flow unterminated_flow no_separator no_colon : Problem
  out_of_fuel : Problem

-- The line is 0 when the problem is the document as a whole.
pub record YamlParseError : Type 0 where
  pub problem : Problem
  pub line : ℕ

pub data Answer {ℓ} (A : Type ℓ) : Type ℓ where
  value : A → Answer A
  thrown : YamlParseError → Answer A

infixl 5 ◌>>=◌ ◌>>◌
abbrev pub ◌>>=◌ {ℓ κ} : {A : Type ℓ} {B : Type κ} → Answer A → (A → Answer B) → Answer B
value a >>= f = f a
thrown e >>= f = thrown e

abbrev pub ◌>>◌ {ℓ} : {B : Type ℓ} → Answer (Unit {0}) → Answer B → Answer B
m >> k = m >>= λ _. k

abbrev pub throw {ℓ} : {A : Type ℓ} → Problem → ℕ → Answer A
throw p line = thrown (record { problem = p; line = line })

-- `if (bad) throw new YamlParseError(p, line)`.
abbrev pub throw_if : Bool → Problem → ℕ → Answer (Unit {0})
throw_if true p line = throw p line
throw_if false p line = value tt

-- `items.push(v)`.
unfoldable pub push : YamlValue → YamlValues → YamlValues
push v nil = cons v nil
push v (cons w ws) = cons w (push v ws)

-- `mapping[key] = v`.
unfoldable pub assign : String → YamlValue → YamlMapping → YamlMapping
assign key v end = entry key v end
assign key v (entry k w rest) =
    let later = assign key v rest in if str_eq k key then entry k v rest else entry k w later
