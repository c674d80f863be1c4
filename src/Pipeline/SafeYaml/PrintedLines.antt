-- ===== src/Pipeline/SafeYaml/PrintedLines.antt =====
-- The lines of a flat document: one entry each, with both texts in double quotes.
use Prim.Native.Char.{Char, code}
use asterim.Prelude.{
  ℕ, Bool, false, ◌||◌, ◌≡◌, refl, ap, ◌∙◌, Option, some, List, [], ◌∷◌, map, arith, String, ◌==◌,
  trim, trim_start, trim_end, is_empty, str_eq, str_eq_of_ne,
}
use asterim.Pipeline.SafeYaml.Answers.{value}
use asterim.Pipeline.SafeYaml.Scalars.{
  outside, double_quote, strip_from, strip_comment, cut_key, split_key, key_and_rest,
}
use asterim.Pipeline.SafeYaml.Lines.{
  split_lines, is_ignorable, starts_with_hash, content_of, skip_from,
}
use asterim.Pipeline.SafeYaml.Printed.{
  escaped, quoted, pair, itself, written, Ends, quoted-Ends, cons-Ends, quote-Ends, trim-quoted,
  unquote-quoted, strip_from-escaped, cut_key-escaped,
}

abbrev pub Field : Type 0
Field = String × String

abbrev value_part : String → String → String
value_part v rest = String.◌∷◌ ":" (String.◌∷◌ " " (quoted v rest))

-- `"key": "value"`.
abbrev pub line_of : Field → String → String
line_of (k, v) rest = quoted k (value_part v rest)

unfoldable pub print : List Field → String
unfolding escaped
print [] = ""
print (e ∷ []) = line_of e ""
print (e ∷ f ∷ es) = line_of e (String.◌∷◌ "\n" (print (f ∷ es)))

value_part-Ends : (v : String) → Ends (String.◌∷◌ "\"" (value_part v ""))
value_part-Ends v =
    cons-Ends "\"" _ (cons-Ends ":" _ (cons-Ends " " _ (quoted-Ends v "" quote-Ends)))

pub line-Ends : (e : Field) → Ends (line_of e "")
line-Ends (k, v) = quoted-Ends k (value_part v "") (value_part-Ends v)

pub trim-line : (e : Field) → trim (line_of e "") ≡ line_of e ""
trim-line (k, v) = trim-quoted k (value_part v "") (value_part-Ends v)

strip_comment-line : (e : Field) → strip_comment (line_of e "") ≡ line_of e ""
unfolding strip_comment
strip_comment-line (k, v) =
    unfold strip_from in
    rw (strip_from-escaped k (value_part v "") false, strip_from-escaped v "" false) refl

pub content_of-line : (i : ℕ) (e : Field) → content_of i (line_of e "") ≡ value (line_of e "")
unfolding content_of
content_of-line i e = ap value (ap trim_end (strip_comment-line e) ∙ (line-Ends e).0)

cut_key-line :
    (k v : String)
    → cut_key outside (line_of (k, v) "") ≡ some (quoted k "", String.◌∷◌ " " (quoted v ""))
unfolding cut_key
cut_key-line k v =
    rw (cut_key-escaped k (value_part v "") "" (String.◌∷◌ " " (quoted v "")) refl) refl

trim-spaced : (v : String) → trim (String.◌∷◌ " " (quoted v "")) ≡ quoted v ""
unfolding trim trim_start
trim-spaced v = trim-quoted v "" quote-Ends

key_and_rest-quoted :
    (k v : String) (line : ℕ)
    → key_and_rest (some (quoted k "", String.◌∷◌ " " (quoted v ""))) line ≡ value (k, quoted v "")
key_and_rest-quoted k v line =
    rw (trim-quoted k "" quote-Ends, unquote-quoted k line, trim-spaced v) refl

pub split_key-line :
    (e : Field) (line : ℕ) → split_key (line_of e "") line ≡ value (e.0, quoted e.1 "")
unfolding split_key
split_key-line (k, v) line =
    ap (λ (o : Option (String × String)). key_and_rest o line) (cut_key-line k v)
    ∙ key_and_rest-quoted k v line

abbrev first_code : String → ℕ
first_code String.[] = 0
first_code (String.◌∷◌ c s) = code c

not_marker :
    (e : Field) (s : String)
    → (first_code s == double_quote) ≡ false
    → str_eq (line_of e "") s ≡ false
not_marker e s h = str_eq_of_ne (line_of e "") s (λ same. (ground (arith, ap first_code same)))

is_ignorable-line : (e : Field) → is_ignorable (line_of e "") ≡ false
unfolding is_ignorable
is_ignorable-line e = ap (λ t. is_empty t || starts_with_hash t) (trim-line e)

skip-content :
    (l : String) (ls : List String) (i : ℕ) (started content : Bool)
    → is_ignorable l ≡ false
    → str_eq (trim l) "---" ≡ false
    → str_eq (trim l) "..." ≡ false
    → skip_from (l ∷ ls) i started content
      ≡ value (record {
        index = i;
        ahead = l ∷ ls;
        saw_document_start = started;
        saw_content = content;
      })
unfolding skip_from
skip-content l ls i started content a b c = rw (a, b, c) refl

pub skip-line :
    (e : Field) (ls : List String) (i : ℕ) (started content : Bool)
    → skip_from (line_of e "" ∷ ls) i started content
      ≡ value (record {
        index = i;
        ahead = line_of e "" ∷ ls;
        saw_document_start = started;
        saw_content = content;
      })
skip-line e ls i started content =
    skip-content (line_of e "") ls i started content (is_ignorable-line e)
      (ap (λ t. str_eq t "---") (trim-line e) ∙ not_marker e "---" refl)
      (ap (λ t. str_eq t "...") (trim-line e) ∙ not_marker e "..." refl)

split_lines-escaped :
    (s rest l : String) (ls : List String)
    → split_lines rest ≡ l ∷ ls
    → split_lines (escaped s rest) ≡ escaped s l ∷ ls
unfolding escaped split_lines
split_lines-escaped String.[] rest l ls h = h
split_lines-escaped (String.◌∷◌ c s) rest l ls h = elim (written c) [
  | pair d e _ plain ↦
      rw (e (escaped s rest), e (escaped s l), plain, split_lines-escaped s rest l ls h) refl
  | itself e _ _ plain ↦
      rw (e (escaped s rest), e (escaped s l), plain, split_lines-escaped s rest l ls h) refl
]

split_lines-cons :
    (c : Char) (rest l : String) (ls : List String)
    → (code c == b'\n') ≡ false
    → split_lines rest ≡ l ∷ ls
    → split_lines (String.◌∷◌ c rest) ≡ String.◌∷◌ c l ∷ ls
unfolding split_lines
split_lines-cons c rest l ls plain h = rw (plain, h) refl

split_lines-break :
    (rest : String) (ls : List String)
    → split_lines rest ≡ ls
    → split_lines (String.◌∷◌ "\n" rest) ≡ "" ∷ ls
unfolding split_lines
split_lines-break rest ls h = rw h refl

split_lines-quoted :
    (s rest l : String) (ls : List String)
    → split_lines rest ≡ l ∷ ls
    → split_lines (quoted s rest) ≡ quoted s l ∷ ls
split_lines-quoted s rest l ls h =
    split_lines-cons "\"" _ _ ls refl
      (split_lines-escaped s _ _ ls (split_lines-cons "\"" rest l ls refl h))

split_lines-line :
    (e : Field) (rest l : String) (ls : List String)
    → split_lines rest ≡ l ∷ ls
    → split_lines (line_of e rest) ≡ line_of e l ∷ ls
split_lines-line (k, v) rest l ls h = split_lines-quoted k _ _ ls (
    split_lines-cons ":" _ _ ls refl
      (split_lines-cons " " _ _ ls refl (split_lines-quoted v rest l ls h)))

pub split_lines-print :
    (e : Field) (es : List Field) → split_lines (print (e ∷ es)) ≡ map (λ f. line_of f "") (e ∷ es)
unfolding print
split_lines-print e [] = split_lines-line e "" "" [] (unfold split_lines in refl)
split_lines-print e (f ∷ es) =
    split_lines-line e _ "" (map (λ g. line_of g "") (f ∷ es))
      (split_lines-break _ _ (split_lines-print f es))
