-- ===== src/Pipeline/SafeYaml/Plain.antt =====
-- Unquoted values, and those that open no flow collection.
use Prim.Native.Char.{Char, code}
use Prim.Native.String.{String, [], ◌∷◌}
use asterim.Prelude.{
  ℕ, ◌+◌, Bool, true, false, ◌&&◌, ◌||◌, Option, none, some, if◌then◌else◌, ◌==◌, leb, str_eq,
  is_empty,
}
use asterim.Pipeline.Parser.Values.{YamlValue, text, number, boolean, null, Number}
use asterim.Pipeline.SafeYaml.Answers.{Answer, value, ◌>>=◌, throw, refused_sigil}
use asterim.Pipeline.SafeYaml.Scalars.{is_quote, unquote}

abbrev pub is_digit : Char → Bool
is_digit c = leb b'0' (code c) && leb (code c) b'9'

unfoldable pub drop_digits : String → String
drop_digits [] = []
drop_digits (c ∷ s) = let rest = drop_digits s in if is_digit c then rest else c ∷ s

-- What is behind `\d+`.
abbrev pub behind_digits : String → Option String
behind_digits [] = none
behind_digits (c ∷ s) = if is_digit c then some (drop_digits s) else none

abbrev pub is_end : Option String → Bool
is_end none = false
is_end (some s) = is_empty s

abbrev pub drop_sign : String → String
drop_sign [] = []
drop_sign (c ∷ s) = if (code c == b'+') || (code c == b'-') then s else c ∷ s

-- `(?:[eE][+-]?\d+)?$`.
abbrev pub is_exponent : String → Bool
is_exponent [] = true
is_exponent (c ∷ s) = ((code c == b'e') || (code c == b'E')) && is_end (behind_digits (drop_sign s))

abbrev pub is_exponent_behind : Option String → Bool
is_exponent_behind none = false
is_exponent_behind (some s) = is_exponent s

-- `(?:\.\d+)?`, and what follows it.
abbrev pub is_fraction : String → Bool
is_fraction [] = true
is_fraction (c ∷ s) =
    if code c == b'.' then is_exponent_behind (behind_digits s) else is_exponent (c ∷ s)

abbrev pub is_unsigned : String → Bool
is_unsigned [] = false
is_unsigned (c ∷ s) =
    if code c == b'0' then is_fraction s else is_digit c && is_fraction (drop_digits s)

-- `NUMBER_PATTERN`.
unfoldable pub is_number : String → Bool
unfolding drop_digits
is_number [] = false
is_number (c ∷ s) = if code c == b'-' then is_unsigned s else is_unsigned (c ∷ s)

-- A word in small letters, whatever the case of the text.
unfoldable pub is_word : String → String → Bool
is_word [] s = is_empty s
is_word (w ∷ ws) [] = false
is_word (w ∷ ws) (c ∷ s) = ((code c == code w) || (code c + 32 == code w)) && is_word ws s

-- `REFUSED_SIGILS`.
abbrev pub is_refused_sigil : Char → Bool
is_refused_sigil c =
    (code c == b'&') || (code c == b'*') || (code c == b'!') || (code c == b'%') || (code c == b'?')

abbrev pub opens_sequence : Char → Bool
opens_sequence c = code c == b'['

abbrev pub opens_mapping : Char → Bool
opens_mapping c = code c == b'{'

abbrev pub opens_flow : String → Bool
opens_flow [] = false
opens_flow (c ∷ s) = opens_sequence c || opens_mapping c

-- `number_of` is JavaScript's `Number`.
module _ (number_of : String → Number) where
  abbrev pub plain_value : String → YamlValue
  plain_value s =
      if str_eq s "~" || is_word "null" s
      then null
      else if is_word "true" s
      then boolean true
      else if is_word "false" s
      then boolean false
      else if is_number s
      then number (number_of s)
      else text s

  -- `parseScalar` of a trimmed text that opens no flow collection.
  unfoldable pub single_value : String → ℕ → Answer YamlValue
  unfolding unquote is_word is_number
  single_value [] line = value null
  single_value (c ∷ s) line =
      if is_refused_sigil c
      then throw refused_sigil line
      else if is_quote c
      then (do t ← unquote (c ∷ s) line; value (text t))
      else value (plain_value (c ∷ s))
