-- ===== src/Pipeline/SafeYaml/BlockScalars.antt =====
-- Literal and folded block scalars.
use Prim.Native.Char.{code}
use Prim.Native.String.{String}
use asterim.Prelude.{
  ℕ, suc, min, Bool, true, false, not, ◌&&◌, ◌||◌, Option, none, some, List, [], ◌∷◌, if◌then◌else◌,
  ◌==◌, leb, str_eq, is_empty, trim, map, join,
}
use asterim.Pipeline.SafeYaml.Answers.{Answer, value, ◌>>=◌, ◌>>◌, throw_if, bad_block_header}
use asterim.Pipeline.SafeYaml.Lines.{
  SafeYamlReader, count_indent, indent_of, drop_chars, leading_space,
}

-- The lines that stand deeper than `parent`, blank ones as empty texts, and the lines behind them.
abbrev pub Taken : Type 0
Taken = List String × ℕ × List String

abbrev pub add_line : String → Answer Taken → Answer Taken
add_line l a = do (raw, i, ls) ← a; value (l ∷ raw, i, ls)

unfoldable pub take_block : ℕ → ℕ → List String → Answer Taken
unfolding count_indent trim
take_block parent i [] = value ([], i, [])
take_block parent i (l ∷ ls) =
    let rest = take_block parent (suc i) ls in
    if is_empty (trim l)
    then add_line "" rest
    else indent_of i l >>= λ indent.
        if leb indent parent then value ([], i, l ∷ ls) else add_line l rest

abbrev pub is_blank_end : String → List String → Bool
is_blank_end l [] = is_empty l
is_blank_end l (m ∷ ms) = false

-- `while (raw[raw.length - 1] === '') raw.pop()`.
unfoldable pub drop_blank_end : List String → List String
drop_blank_end [] = []
drop_blank_end (l ∷ ls) =
    let rest = drop_blank_end ls in if is_blank_end l rest then [] else l ∷ rest

-- The least indentation of the lines that are not empty; `none` is `Infinity`.
abbrev pub min_indent : Option ℕ → ℕ → Option ℕ
min_indent none n = some n
min_indent (some m) n = some (min m n)

unfoldable pub block_indent : List String → Option ℕ
unfolding leading_space
block_indent [] = none
block_indent (l ∷ ls) =
    let rest = block_indent ls in if is_empty l then rest else min_indent rest (leading_space l)

abbrev pub drop_indent : Option ℕ → String → String
drop_indent none l = l
drop_indent (some n) l = drop_chars n l

abbrev pub starts_with_space : String → Bool
starts_with_space String.[] = false
starts_with_space (String.◌∷◌ c s) = code c == b' '

-- The lines behind the first, joined as `|` and as `>` join them.
unfoldable pub literal_from : String → List String → String
unfolding join
literal_from done [] = done
literal_from done (l ∷ ls) = literal_from (join done (join "\n" l)) ls

abbrev pub fold_mark : String → String → String
fold_mark previous l =
    if is_empty l || is_empty previous || starts_with_space l || starts_with_space previous
    then "\n"
    else " "

unfoldable pub folded_from : String → String → List String → String
unfolding join
folded_from done previous [] = done
folded_from done previous (l ∷ ls) = folded_from (join done (join (fold_mark previous l) l)) l ls

-- `replace(/\n+$/, '')`.
unfoldable pub drop_newlines : String → String
drop_newlines String.[] = String.[]
drop_newlines (String.◌∷◌ c s) =
    let rest = drop_newlines s in
    if (code c == b'\n') && is_empty rest then String.[] else String.◌∷◌ c rest

abbrev pub is_literal : String → Bool
is_literal String.[] = false
is_literal (String.◌∷◌ c s) = code c == b'|'

abbrev pub block_body : Bool → List String → String
block_body literal [] = ""
block_body true (l ∷ ls) = literal_from l ls
block_body false (l ∷ ls) = folded_from l l ls

-- The text of a block scalar with these lines, under this chomping.
abbrev pub block_text : Bool → String → List String → String
block_text literal chomping [] = ""
block_text literal chomping (l ∷ ls) =
    let body = block_body literal (map (drop_indent (block_indent (l ∷ ls))) (l ∷ ls)) in
    if str_eq chomping "-" then drop_newlines body else join body "\n"

abbrev pub is_chomping : String → Bool
is_chomping s = is_empty s || str_eq s "-" || str_eq s "+"

-- `index` and `ahead` are behind the header's line.
unfoldable pub parse_block_scalar :
    String → ℕ → ℕ → SafeYamlReader → Answer (String × SafeYamlReader)
unfolding trim drop_chars take_block drop_blank_end block_indent literal_from folded_from
    drop_newlines
parse_block_scalar header parent line r = do
  let chomping = trim (drop_chars 1 header)
  throw_if (not (is_chomping chomping)) (bad_block_header header) line
  (raw, i, ls) ← take_block parent r.index r.ahead
  value (
    block_text (is_literal header) chomping (drop_blank_end raw),
    record r { index = i; ahead = ls },
  )
