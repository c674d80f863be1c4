-- ===== src/Pipeline/SafeYaml/Flow.antt =====
-- `parseScalar`, and the flow collections that it reads.
use Prim.Native.Char.{Char, code}
use Prim.Native.String.{String, [], ◌∷◌}
use asterim.Prelude.{
  ℕ, zero, suc, ◌+◌, ◌*◌, Bool, true, false, not, ◌&&◌, ◌||◌, Option, none, some, if◌then◌else◌,
  ◌==◌, ltb, leb, is_empty, trim, trim_start, text_length, length,
}
use asterim.Pipeline.Parser.Values.{
  YamlValue, sequence, mapping, YamlValues, nil, YamlMapping, end, Number, values_of, keys_of,
}
use asterim.Pipeline.SafeYaml.Answers.{
  Answer, value, ◌>>=◌, ◌>>◌, throw, throw_if, max_yaml_depth, max_yaml_collection_entries, push,
  assign, too_many_entries, flow_too_deep, unterminated_string, unexpected_in_flow,
  unterminated_flow, no_separator, no_colon, out_of_fuel,
}
use asterim.Pipeline.SafeYaml.Scalars.{
  is_quote, double_quote, backslash, before, unquote, guard_key,
}
use asterim.Pipeline.SafeYaml.Plain.{opens_sequence, opens_mapping, opens_flow, single_value}

-- A quoted text behind its opening quote, with what follows it. The flag: behind a backslash.
unfoldable pub take_quoted : ℕ → Bool → String → Option (String × String)
take_quoted q escaped [] = none
take_quoted q true (c ∷ s) = before c (take_quoted q false s)
take_quoted q false (c ∷ s) =
    let later = take_quoted q ((code c == backslash) && (q == double_quote)) s in
    if (code c == q) && not ((code c == backslash) && (q == double_quote))
    then some (c ∷ [], s)
    else before c later

abbrev pub is_stop : Bool → Char → Bool
is_stop is_key c =
    (is_key && (code c == b':'))
    || (code c == b',')
    || (code c == b'{')
    || (code c == b'}')
    || opens_sequence c
    || (code c == b']')

abbrev pub add_front : Char → String × String → String × String
add_front c (s, rest) = (c ∷ s, rest)

unfoldable pub take_plain : Bool → String → String × String
take_plain is_key [] = ([], [])
take_plain is_key (c ∷ s) =
    let later = take_plain is_key s in if is_stop is_key c then ([], c ∷ s) else add_front c later

abbrev pub quoted_text : Char → Option (String × String) → ℕ → Answer (String × String)
quoted_text c none line = throw unterminated_string line
quoted_text c (some (s, rest)) line = value (c ∷ s, rest)

-- `readFlowScalarText` behind white space.
unfoldable pub flow_scalar_text : Bool → String → ℕ → Answer (String × String)
unfolding take_quoted take_plain
flow_scalar_text is_key [] line = value ([], [])
flow_scalar_text is_key (c ∷ s) line =
    if is_quote c
    then quoted_text c (take_quoted (code c) false s) line
    else value (take_plain is_key (c ∷ s))

-- The text behind a `:`.
abbrev pub behind_colon : String → ℕ → Answer String
behind_colon [] line = throw no_colon line
behind_colon (c ∷ s) line = if code c == b':' then value s else throw no_colon line

module _ (number_of : String → Number) (line : ℕ) where
  abbrev pub Flow : Type 0 → Type 0
  Flow A = Answer (A × String)

  -- `parseScalar`, where `flow` is `parseFlow`.
  abbrev pub scalar_by : (String → Answer YamlValue) → String → Answer YamlValue
  scalar_by flow s = if opens_flow s then flow s else single_value number_of s line

  abbrev pub whole_flow : Flow YamlValue → Answer YamlValue
  whole_flow a = do
    (v, rest) ← a
    throw_if (not (is_empty (trim_start rest))) unexpected_in_flow line
    value v

  abbrev pub scalar_in_flow : (String → Answer YamlValue) → String → Flow YamlValue
  scalar_in_flow flow s = do
    (t, rest) ← flow_scalar_text false s line
    v ← scalar_by flow (trim t)
    value (v, rest)

  abbrev pub as_sequence : Flow YamlValues → Flow YamlValue
  as_sequence a = do (vs, rest) ← a; value (sequence vs, rest)

  abbrev pub as_mapping : Flow YamlMapping → Flow YamlValue
  as_mapping a = do (m, rest) ← a; value (mapping m, rest)

  -- `readFlowValue` behind white space, by the opener.
  abbrev pub value_opened :
      (String → Flow YamlValues)
      → (String → Flow YamlMapping)
      → (String → Answer YamlValue)
      → String
      → Flow YamlValue
  value_opened items entries flow [] = scalar_in_flow flow []
  value_opened items entries flow (c ∷ s) =
      if opens_sequence c
      then as_sequence (items s)
      else if opens_mapping c
      then as_mapping (entries s)
      else scalar_in_flow flow (c ∷ s)

  -- Behind an entry. At a closing bracket the source's loop turns once more, and ends.
  abbrev pub behind_entry :
      {A : Type 0} → (Char → Bool) → (A → String → Flow A) → A → String → Flow A
  behind_entry closes again a [] = throw no_separator line
  behind_entry closes again a (c ∷ s) =
      if code c == b','
      then again a s
      else if closes c
      then value (a, s)
      else throw no_separator line

  abbrev pub closes_sequence : Char → Bool
  closes_sequence c = code c == b']'

  abbrev pub closes_mapping : Char → Bool
  closes_mapping c = code c == b'}'

  -- A turn of the loop of `readFlowSequence`, with what was read so far.
  abbrev pub item_turn :
      (String → Flow YamlValue)
      → (YamlValues → String → Flow YamlValues)
      → YamlValues
      → String
      → Flow YamlValues
  item_turn read again items [] = throw unterminated_flow line
  item_turn read again items (c ∷ s) =
      if closes_sequence c
      then value (items, s)
      else throw_if (leb max_yaml_collection_entries (length (values_of items))) too_many_entries
          line
        >> (do
          (v, rest) ← read (c ∷ s)
          behind_entry closes_sequence again (push v items) (trim_start rest))

  -- A turn of the loop of `readFlowMapping`.
  abbrev pub entry_turn :
      (String → Flow YamlValue)
      → (YamlMapping → String → Flow YamlMapping)
      → YamlMapping
      → String
      → Flow YamlMapping
  entry_turn read again entries [] = throw unterminated_flow line
  entry_turn read again entries (c ∷ s) =
      if closes_mapping c
      then value (entries, s)
      else throw_if (leb max_yaml_collection_entries (length (keys_of entries))) too_many_entries
          line
        >> (do
          (key, rest) ← flow_scalar_text true (c ∷ s) line
          rest₁ ← behind_colon (trim_start rest) line
          (v, rest₂) ← read rest₁
          name ← unquote (trim key) line
          guard_key name line
          behind_entry closes_mapping again (assign name v entries) (trim_start rest₂))

  unfoldable mutual
    unfolding flow_scalar_text single_value unquote push assign trim trim_start

    pub read_flow_value : ℕ → ℕ → String → Flow YamlValue
    read_flow_value zero depth s = throw out_of_fuel line
    read_flow_value (suc n) depth s =
        throw_if (ltb max_yaml_depth depth) flow_too_deep line
        >> value_opened (read_flow_sequence n depth nil) (read_flow_mapping n depth end)
            (λ t. whole_flow (read_flow_value n 0 t)) (trim_start s)

    pub read_flow_sequence : ℕ → ℕ → YamlValues → String → Flow YamlValues
    read_flow_sequence zero depth items s = throw out_of_fuel line
    read_flow_sequence (suc n) depth items s =
        item_turn (read_flow_value n (suc depth)) (read_flow_sequence n depth) items (trim_start s)

    pub read_flow_mapping : ℕ → ℕ → YamlMapping → String → Flow YamlMapping
    read_flow_mapping zero depth entries s = throw out_of_fuel line
    read_flow_mapping (suc n) depth entries s =
        entry_turn (read_flow_value n (suc depth)) (read_flow_mapping n depth) entries
          (trim_start s)

  -- `parseScalar` of a trimmed text.
  unfoldable pub parse_scalar : String → Answer YamlValue
  unfolding read_flow_value text_length
  parse_scalar s =
      scalar_by (λ t. whole_flow (read_flow_value (2 * text_length t + 1) 0 t)) (trim s)
