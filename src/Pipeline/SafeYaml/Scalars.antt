-- ===== src/Pipeline/SafeYaml/Scalars.antt =====
-- Comments, keys, quoted text and single values.
use Prim.Native.Char.{Char, code}
use Prim.Native.String.{String, [], ◌∷◌}
use mathlib.Core.Option
use asterim.Prelude.{
  ℕ, Bool, true, false, ◌&&◌, ◌||◌, Option, none, some, if◌then◌else◌, ◌==◌, is_space, is_empty,
  trim, includes,
}
use asterim.Pipeline.SafeYaml.Answers.{
  Answer, value, thrown, ◌>>=◌, throw, refused_keys, throw_if, ◌>>◌, refused_key, empty_key, no_key,
  unterminated_string, unsupported_escape,
}

abbrev pub double_quote : ℕ
double_quote = b'"'

abbrev pub single_quote : ℕ
single_quote = 39

abbrev pub backslash : ℕ
backslash = 92

abbrev pub is_quote : Char → Bool
is_quote c = (code c == double_quote) || (code c == single_quote)

-- Where a scan of a line stands: `quote`, or behind a backslash in double quotes.
pub data Quoting : Type 0 where
  outside escaping : Quoting
  inside : ℕ → Quoting

abbrev pub next_quoting : Quoting → Char → Quoting
next_quoting outside c = if is_quote c then inside (code c) else outside
next_quoting escaping c = inside double_quote
next_quoting (inside q) c =
    if (code c == backslash) && (q == double_quote)
    then escaping
    else if code c == q
    then outside
    else inside q

abbrev pub opens_comment : Quoting → Bool → Char → Bool
opens_comment outside spaced c = (code c == b'#') && spaced
opens_comment _ spaced c = false

-- `spaced`: at the start of the line or behind white space.
unfoldable pub strip_from : Quoting → Bool → String → String
strip_from q spaced [] = []
strip_from q spaced (c ∷ s) =
    let rest = strip_from (next_quoting q c) (is_space c) s in
    if opens_comment q spaced c then [] else c ∷ rest

unfoldable pub strip_comment : String → String
unfolding strip_from
strip_comment line = strip_from outside true line

-- A space or the end of the line.
abbrev pub is_break : String → Bool
is_break [] = true
is_break (c ∷ s) = code c == b' '

abbrev pub ends_key : Quoting → Char → String → Bool
ends_key outside c s = (code c == b':') && is_break s
ends_key _ c s = false

abbrev pub before : Char → Option (String × String) → Option (String × String)
before c none = none
before c (some (k, rest)) = some (c ∷ k, rest)

-- The texts on both sides of the colon that ends a key.
unfoldable pub cut_key : Quoting → String → Option (String × String)
cut_key q [] = none
cut_key q (c ∷ s) =
    let later = cut_key (next_quoting q c) s in
    if ends_key q c s then some ([], s) else before c later

-- What stands in front of a closing quote at the end.
unfoldable pub body_of : ℕ → String → Option String
body_of q [] = none
body_of q (c ∷ []) = if code c == q then some [] else none
body_of q (c ∷ d ∷ s) = Option.map (λ t. c ∷ t) (body_of q (d ∷ s))

-- `replace(/''/g, "'")`.
unfoldable pub merge_quotes : String → String
merge_quotes [] = []
merge_quotes (c ∷ []) = c ∷ []
merge_quotes (c ∷ d ∷ s) =
    let both = merge_quotes s in
    let one = merge_quotes (d ∷ s) in
    if (code c == single_quote) && (code d == single_quote) then c ∷ both else c ∷ one

abbrev pub escape_of : Char → Option Char
escape_of c =
    if code c == b'n'
    then some "\n"
    else if code c == b't'
    then some "\t"
    else if code c == b'r'
    then some "\r"
    else if (code c == double_quote) || (code c == backslash) || (code c == b'/')
    then some c
    else none

abbrev pub add_char : Char → Answer String → Answer String
add_char c s = do t ← s; value (c ∷ t)

abbrev pub unescaped : Option Char → Char → Answer String → ℕ → Answer String
unescaped none c rest line = throw (unsupported_escape (c ∷ [])) line
unescaped (some d) c rest line = add_char d rest

-- The flag: behind a backslash.
unfoldable pub unescape_from : Bool → String → ℕ → Answer String
unescape_from false [] line = value []
unescape_from true [] line = throw (unsupported_escape []) line
unescape_from true (c ∷ s) line =
    let rest = unescape_from false s line in unescaped (escape_of c) c rest line
unescape_from false (c ∷ s) line =
    let escaped = unescape_from true s line in
    let rest = unescape_from false s line in
    if code c == backslash then escaped else add_char c rest

unfoldable pub unescape_double_quoted : String → ℕ → Answer String
unfolding unescape_from
unescape_double_quoted s line = unescape_from false s line

abbrev pub single_quoted : Option String → ℕ → Answer String
single_quoted none line = throw unterminated_string line
single_quoted (some body) line = value (merge_quotes body)

abbrev pub double_quoted : Option String → ℕ → Answer String
double_quoted none line = throw unterminated_string line
double_quoted (some body) line = unescape_double_quoted body line

unfoldable pub unquote : String → ℕ → Answer String
unfolding body_of merge_quotes unescape_double_quoted
unquote [] line = value []
unquote (c ∷ s) line =
    if code c == single_quote
    then single_quoted (body_of single_quote s) line
    else if code c == double_quote
    then double_quoted (body_of double_quote s) line
    else value (c ∷ s)

abbrev pub key_and_rest : Option (String × String) → ℕ → Answer (String × String)
key_and_rest none line = throw no_key line
key_and_rest (some (k, rest)) line = do
  throw_if (is_empty (trim k)) empty_key line
  key ← unquote (trim k) line
  value (key, trim rest)

unfoldable pub split_key : String → ℕ → Answer (String × String)
unfolding cut_key unquote trim
split_key s line = key_and_rest (cut_key outside s) line

abbrev pub is_answer {ℓ} : {A : Type ℓ} → Answer A → Bool
is_answer (value a) = true
is_answer (thrown e) = false

abbrev pub looks_like_mapping_entry : String → Bool
looks_like_mapping_entry s = is_answer (split_key s 0)

abbrev pub guard_key : String → ℕ → Answer (Unit {0})
guard_key key line = throw_if (includes key refused_keys) (refused_key key) line
