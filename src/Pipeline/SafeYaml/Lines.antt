-- ===== src/Pipeline/SafeYaml/Lines.antt =====
-- The lines of the document: `SafeYamlReader`'s fields, its private helpers, and block scalars.
use Prim.Native.Char.{Char, code}
use Prim.Native.String.{String}
use mathlib.Core.Option
use asterim.Prelude.{
  ℕ, zero, suc, ◌+◌, Bool, true, false, ◌&&◌, ◌||◌, Option, none, some, List, [], ◌∷◌,
  if◌then◌else◌, ◌==◌, str_eq, is_space, is_empty, trim, trim_end, length,
}
use asterim.Pipeline.SafeYaml.Answers.{
  Answer, value, ◌>>=◌, ◌>>◌, throw, throw_if, tab_indentation, second_document,
}
use asterim.Pipeline.SafeYaml.Scalars.{strip_comment}

-- `ahead` are the lines from `index` on.
pub record SafeYamlReader : Type 0 where
  pub index : ℕ
  pub ahead : List String
  pub saw_document_start : Bool
  pub saw_content : Bool

-- `source.split('\n')`.
abbrev pub add_to_first : Char → List String → List String
add_to_first c [] = (String.◌∷◌ c String.[]) ∷ []
add_to_first c (l ∷ ls) = (String.◌∷◌ c l) ∷ ls

unfoldable pub split_lines : String → List String
split_lines String.[] = String.[] ∷ []
split_lines (String.◌∷◌ c s) =
    let rest = split_lines s in if code c == b'\n' then String.[] ∷ rest else add_to_first c rest

-- `line.replace(/\r$/, '')`.
unfoldable pub strip_return : String → String
strip_return String.[] = String.[]
strip_return (String.◌∷◌ c s) =
    let rest = strip_return s in
    if (code c == b'\r') && is_empty s then String.[] else String.◌∷◌ c rest

-- The spaces in front of a line, `none` if a tab follows them.
unfoldable pub count_indent : String → Option ℕ
count_indent String.[] = some 0
count_indent (String.◌∷◌ c s) =
    let rest = count_indent s in
    if code c == b' '
    then Option.map (λ (n : ℕ). suc n) rest
    else if code c == b'\t'
    then none
    else some 0

abbrev pub indent_or_throw : Option ℕ → ℕ → Answer ℕ
indent_or_throw none line = throw tab_indentation line
indent_or_throw (some n) line = value n

-- `index` is that of the line.
abbrev pub indent_of : ℕ → String → Answer ℕ
indent_of index l = indent_or_throw (count_indent l) (suc index)

unfoldable pub drop_chars : ℕ → String → String
drop_chars zero s = s
drop_chars (suc n) String.[] = String.[]
drop_chars (suc n) (String.◌∷◌ c s) = drop_chars n s

abbrev pub starts_with_hash : String → Bool
starts_with_hash String.[] = false
starts_with_hash (String.◌∷◌ c s) = code c == b'#'

unfoldable pub is_ignorable : String → Bool
unfolding trim
is_ignorable l = is_empty (trim l) || starts_with_hash (trim l)

unfoldable pub content_of : ℕ → String → Answer String
unfolding strip_comment count_indent drop_chars trim_end
content_of index l = do
  indent ← indent_of index l
  value (trim_end (drop_chars indent (strip_comment l)))

unfoldable pub skip_from : List String → ℕ → Bool → Bool → Answer SafeYamlReader
unfolding is_ignorable trim
skip_from [] i started content =
    value (record { index = i; ahead = []; saw_document_start = started; saw_content = content })
skip_from (l ∷ ls) i started content =
    let skipped = skip_from ls (suc i) started content in
    let opened = skip_from ls (suc i) true content in
    if is_ignorable l
    then skipped
    else if str_eq (trim l) "---"
    then throw_if (started || content) second_document (suc i) >> opened
    else if str_eq (trim l) "..."
    then value (record {
      index = i + length (l ∷ ls);
      ahead = [];
      saw_document_start = started;
      saw_content = content;
    })
    else value
        (record { index = i; ahead = l ∷ ls; saw_document_start = started; saw_content = content })

unfoldable pub skip_ignorable : SafeYamlReader → Answer SafeYamlReader
unfolding skip_from
skip_ignorable r = skip_from r.ahead r.index r.saw_document_start r.saw_content

-- `text === '-' || text.startsWith('- ')`.
abbrev pub is_space_behind : String → Bool
is_space_behind String.[] = true
is_space_behind (String.◌∷◌ c s) = code c == b' '

abbrev pub is_item : String → Bool
is_item String.[] = false
is_item (String.◌∷◌ c s) = (code c == b'-') && is_space_behind s

unfoldable pub leading_space : String → ℕ
leading_space String.[] = 0
leading_space (String.◌∷◌ c s) = let rest = leading_space s in if is_space c then suc rest else 0

unfoldable pub column_of_item_value : String → ℕ → ℕ
unfolding leading_space drop_chars
column_of_item_value l indent = suc indent + leading_space (drop_chars (suc indent) l)

-- `' '.repeat(n) + s`.
unfoldable pub indented : ℕ → String → String
indented zero s = s
indented (suc n) s = String.◌∷◌ " " (indented n s)
