-- ===== src/Pipeline/Parser/Values.antt =====
-- The values that `parseSafeYaml` returns, the refusals, and the readers of one value.
use asterim.Prelude.{
  ℕ, String, Bool, true, false, not, ◌&&◌, ◌||◌, Option, none, some, List, [], ◌∷◌, if◌then◌else◌,
  ◌==◌, ltb, str_eq, includes, keep, trim, is_empty, text_units,
}

-- A finite number: its sign, its whole part, whether it has a fraction, and what `String` makes of it.
pub record Number : Type 0 where
  pub negative : Bool
  pub whole : ℕ
  pub has_fraction : Bool
  pub shown : String

mutual
  pub data YamlValue : Type 0 where
    text : String → YamlValue
    number : Number → YamlValue
    boolean : Bool → YamlValue
    null : YamlValue
    sequence : YamlValues → YamlValue
    mapping : YamlMapping → YamlValue

  pub data YamlValues : Type 0 where
    nil : YamlValues
    cons : YamlValue → YamlValues → YamlValues

  pub data YamlMapping : Type 0 where
    end : YamlMapping
    entry : String → YamlValue → YamlMapping → YamlMapping

-- `mapping[key]`: `none` is `undefined`.
unfoldable pub member : String → YamlMapping → Option YamlValue
member key end = none
member key (entry k v rest) = if str_eq k key then some v else member key rest

abbrev pub keys_of : YamlMapping → List String
keys_of end = []
keys_of (entry k v rest) = k ∷ keys_of rest

abbrev pub values_of : YamlValues → List YamlValue
values_of nil = []
values_of (cons v vs) = v ∷ values_of vs

-- Where a refused value stands: a field of the definition, or one of a step.
pub data FieldName : Type 0 where
  field : String → FieldName
  step_field : ℕ → String → FieldName

pub data PipelineParseError : Type 0 where
  unreadable : PipelineParseError
  not_a_mapping : PipelineParseError
  unknown_keys : List String → PipelineParseError
  missing : FieldName → PipelineParseError
  too_long : FieldName → ℕ → PipelineParseError
  not_text : FieldName → PipelineParseError
  not_boolean : FieldName → PipelineParseError
  not_list : FieldName → PipelineParseError
  bad_entry : FieldName → PipelineParseError
  not_whole : FieldName → PipelineParseError
  out_of_bounds : FieldName → ℕ → ℕ → PipelineParseError
  bad_timeout : FieldName → PipelineParseError
  bad_trigger : PipelineParseError
  bad_parameters : PipelineParseError
  too_many_parameters : PipelineParseError
  parameter_not_single : String → PipelineParseError
  no_steps : PipelineParseError
  too_many_steps : ℕ → PipelineParseError
  step_not_mapping : ℕ → PipelineParseError
  bad_step_id : String → PipelineParseError
  duplicate_id : String → PipelineParseError
  self_dependency : String → PipelineParseError
  unknown_dependency : String → String → PipelineParseError
  dependency_cycle : List String → PipelineParseError
  no_order : PipelineParseError
  unknown_role : String → String → PipelineParseError

pub data Result {ℓ} (A : Type ℓ) : Type ℓ where
  ok : A → Result A
  refused : PipelineParseError → Result A

infixl 5 ◌>>=◌ ◌>>◌
abbrev pub ◌>>=◌ {ℓ κ} : {A : Type ℓ} {B : Type κ} → Result A → (A → Result B) → Result B
ok a >>= f = f a
refused e >>= f = refused e

abbrev pub ◌>>◌ {ℓ} : {B : Type ℓ} → Result (Unit {0}) → Result B → Result B
m >> k = m >>= λ _. k

-- `if (bad) throw e`.
abbrev pub refuse_if : Bool → PipelineParseError → Result (Unit {0})
refuse_if true e = refused e
refuse_if false e = ok tt

abbrev pub is_set : Option YamlValue → Bool
is_set none = false
is_set (some null) = false
is_set (some v) = true

-- `a ?? b`.
abbrev pub or_else : Option YamlValue → Option YamlValue → Option YamlValue
or_else none b = b
or_else (some null) b = b
or_else (some v) b = some v

unfoldable pub refuse_unknown_keys : YamlMapping → List String → Result (Unit {0})
refuse_unknown_keys m allowed = elim (keep (λ key. not (includes key allowed)) (keys_of m)) [
  | [] ↦ ok tt
  | key ∷ more ↦ refused (unknown_keys (key ∷ more))
]

abbrev pub text_of : Option YamlValue → String
text_of (some (text s)) = trim s
text_of _ = ""

unfoldable pub require_text : Option YamlValue → FieldName → ℕ → Result String
unfolding trim text_units
require_text value name limit = do
  refuse_if (is_empty (text_of value)) (missing name)
  refuse_if (ltb limit (text_units (text_of value))) (too_long name limit)
  ok (text_of value)

abbrev pub bounded_text : String → FieldName → ℕ → Result (Option String)
bounded_text s name limit =
    if is_empty s
    then ok none
    else if ltb limit (text_units s)
    then refused (too_long name limit)
    else ok (some s)

unfoldable pub optional_text : Option YamlValue → FieldName → ℕ → Result (Option String)
unfolding trim text_units
optional_text none name limit = ok none
optional_text (some null) name limit = ok none
optional_text (some (text s)) name limit = bounded_text (trim s) name limit
optional_text (some v) name limit = refused (not_text name)

unfoldable pub read_boolean : Option YamlValue → FieldName → Result Bool
read_boolean (some (boolean b)) name = ok b
read_boolean v name = refused (not_boolean name)

abbrev pub is_positive : Number → Bool
is_positive n = not n.negative && (ltb 0 n.whole || n.has_fraction)

abbrev pub exceeds : Number → ℕ → Bool
exceeds n limit = not n.negative && (ltb limit n.whole || ((n.whole == limit) && n.has_fraction))

abbrev pub max_delegation_timeout_ms : ℕ
max_delegation_timeout_ms = 3600000

unfoldable pub read_timeout : Option YamlValue → FieldName → Result ℕ
read_timeout (some (number n)) name = do
  refuse_if (not (is_positive n)) (bad_timeout name)
  refuse_if (exceeds n max_delegation_timeout_ms) (too_long name max_delegation_timeout_ms)
  ok n.whole
read_timeout v name = refused (bad_timeout name)

-- Below zero is below every `lowest`; minus zero is zero.
abbrev pub is_outside : Number → ℕ → ℕ → Bool
is_outside n lowest highest =
    (n.negative && ltb 0 n.whole) || ltb n.whole lowest || ltb highest n.whole

unfoldable pub read_bounded_integer : Option YamlValue → FieldName → ℕ → ℕ → Result ℕ
read_bounded_integer (some (number n)) name lowest highest = do
  refuse_if n.has_fraction (not_whole name)
  refuse_if (is_outside n lowest highest) (out_of_bounds name lowest highest)
  ok n.whole
read_bounded_integer v name lowest highest = refused (not_whole name)

abbrev pub read_entry : YamlValue → FieldName → Result String
read_entry (text s) name = if is_empty (trim s) then refused (bad_entry name) else ok (trim s)
read_entry v name = refused (bad_entry name)

unfoldable pub read_entries : List YamlValue → FieldName → Result (List String)
unfolding trim
read_entries [] name = ok []
read_entries (v ∷ vs) name =
    let rest = read_entries vs name in do e ← read_entry v name; es ← rest; ok (e ∷ es)

unfoldable pub read_string_list : Option YamlValue → FieldName → Result (List String)
unfolding read_entries
read_string_list (some (sequence vs)) name = read_entries (values_of vs) name
read_string_list v name = refused (not_list name)

unfoldable pub read_depends_on : Option YamlValue → FieldName → Result (List String)
unfolding read_string_list trim
read_depends_on none name = ok []
read_depends_on (some null) name = ok []
read_depends_on (some (text s)) name = if is_empty (trim s) then ok [] else ok (trim s ∷ [])
read_depends_on (some v) name = read_string_list (some v) name
