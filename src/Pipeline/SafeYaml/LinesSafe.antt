-- ===== src/Pipeline/SafeYaml/LinesSafe.antt =====
-- What the helpers of the reader leave of the lines.
use Prim.Native.Char.{Char, code}
use Prim.Native.String.{String}
use asterim.Prelude.{
  ℕ, zero, suc, ◌≤◌, Bool, true, false, not, ◌||◌, ◌≡◌, refl, ap, ◌⊎◌, inl, inr, Option, none, some,
  List, [], ◌∷◌, arith, ◌==◌, leb, str_eq, is_empty, trim, length, is_space,
}
use asterim.Pipeline.SafeYaml.Answers.{Answer, value, thrown, second_document, bad_block_header}
use asterim.Pipeline.SafeYaml.Lines.{
  SafeYamlReader, count_indent, indent_or_throw, indent_of, is_ignorable, content_of, skip_from,
  skip_ignorable, drop_chars, indented,
}
use asterim.Pipeline.SafeYaml.BlockScalars.{
  Taken, add_line, take_block, is_chomping, parse_block_scalar,
}
use asterim.Pipeline.SafeYaml.Safe.{Meets, Meets-bind, Meets-throw_if, Meets-if}
use asterim.Pipeline.SafeYaml.Texts.{IsSolid}

-- The same lines, or fewer.
abbrev pub Skipped : List String → SafeYamlReader → Type 0
Skipped ls r = (r.ahead ≡ ls) ⊎ (suc (length r.ahead) ≤ length ls)

Skipped-more :
    (l : String) (ls : List String) (r : SafeYamlReader) → Skipped ls r → Skipped (l ∷ ls) r
Skipped-more l ls r (inl e) = inr (omega (arith, ap length e))
Skipped-more l ls r (inr h) = inr (omega arith)

more-Meets :
    (l : String) (ls : List String) (a : Answer SafeYamlReader)
    → Meets (Skipped ls) a
    → Meets (Skipped (l ∷ ls)) a
more-Meets l ls (value r) h = Skipped-more l ls r h
more-Meets l ls (thrown e) h = h

skip_from-Meets :
    (ls : List String) (i : ℕ) (started content : Bool)
    → Meets (Skipped ls) (skip_from ls i started content)
unfolding skip_from
skip_from-Meets [] i started content = inl refl
skip_from-Meets (l ∷ ls) i started content =
    Meets-if (Skipped (l ∷ ls)) _ (is_ignorable l) _
      (λ _. more-Meets l ls _ (skip_from-Meets ls (suc i) started content))
      (λ _.
        Meets-if (Skipped (l ∷ ls)) _ (str_eq (trim l) "---") _
          (λ _.
            Meets-throw_if (Skipped (l ∷ ls)) _ (started || content) second_document (suc i) tt
              (λ _. more-Meets l ls _ (skip_from-Meets ls (suc i) true content)))
          (λ _.
            Meets-if (Skipped (l ∷ ls)) (value _) (str_eq (trim l) "...") (value _)
              (λ _. inr (omega arith)) (λ _. inl refl)))

pub skip_ignorable-Meets : (r : SafeYamlReader) → Meets (Skipped r.ahead) (skip_ignorable r)
unfolding skip_ignorable
skip_ignorable-Meets r = skip_from-Meets r.ahead r.index r.saw_document_start r.saw_content

indent_or_throw-Meets : (o : Option ℕ) (line : ℕ) → Meets (λ n. o ≡ some n) (indent_or_throw o line)
indent_or_throw-Meets none line = tt
indent_or_throw-Meets (some n) line = refl

pub indent_of-Meets : (i : ℕ) (l : String) → Meets (λ n. count_indent l ≡ some n) (indent_of i l)
indent_of-Meets i l = indent_or_throw-Meets (count_indent l) (suc i)

pub content_of-Meets : (i : ℕ) (l : String) → Meets (λ (s : String). Unit) (content_of i l)
unfolding content_of
content_of-Meets i l =
    Meets-bind (λ n. count_indent l ≡ some n) (λ s. Unit) (indent_of i l) _ (indent_of-Meets i l)
      (λ n h. tt)

solid_char :
    (c : Char) → is_space c ≡ false → ((code c == b' ') ≡ false) × ((code c == b'\t') ≡ false)
solid_char c h = (ground arith, ground arith)

pub count_indent-indented : (n : ℕ) (s : String) → IsSolid s → count_indent (indented n s) ≡ some n
unfolding count_indent indented
count_indent-indented zero String.[] h = refl
count_indent-indented zero (String.◌∷◌ c s) h =
    let (no_space, no_tab) = solid_char c h in rw (no_space, no_tab) refl
count_indent-indented (suc n) s h = rw (count_indent-indented n s h) refl

-- The lines that a block scalar leaves.
abbrev LeavesLines : ℕ → Taken → Type 0
LeavesLines n (raw, i, ls) = length ls ≤ n

add_line-Meets :
    (n : ℕ) (l : String) (a : Answer Taken)
    → Meets (LeavesLines n) a
    → Meets (LeavesLines (suc n)) (add_line l a)
add_line-Meets n l (value (raw, i, ls)) h = omega arith
add_line-Meets n l (thrown e) h = h

take_block-Meets :
    (parent i : ℕ) (ls : List String) → Meets (LeavesLines (length ls)) (take_block parent i ls)
unfolding take_block
take_block-Meets parent i [] = omega arith
take_block-Meets parent i (l ∷ ls) =
    let P = LeavesLines (length (l ∷ ls)) in
    let ih = take_block-Meets parent (suc i) ls in
    Meets-if P _ (is_empty (trim l)) _ (λ _. add_line-Meets (length ls) "" _ ih)
      (λ _.
        Meets-bind (λ n. count_indent l ≡ some n) P (indent_of i l) _ (indent_of-Meets i l)
          (λ indent _.
            Meets-if P (value ([], i, l ∷ ls)) (leb indent parent) _ (λ _. omega arith)
              (λ _. add_line-Meets (length ls) l _ ih)))

pub parse_block_scalar-Meets :
    (header : String) (parent line : ℕ) (r : SafeYamlReader)
    → Meets
        (λ (p : String × SafeYamlReader). length p.1.ahead ≤ length r.ahead)
        (parse_block_scalar header parent line r)
unfolding parse_block_scalar
parse_block_scalar-Meets header parent line r =
    let P : String × SafeYamlReader → Type 0 = λ p. length p.1.ahead ≤ length r.ahead in
    Meets-throw_if P _ (not (is_chomping (trim (drop_chars 1 header)))) (bad_block_header header)
      line tt
      (λ _.
        Meets-bind (LeavesLines (length r.ahead)) P (take_block parent r.index r.ahead) _
          (take_block-Meets parent r.index r.ahead) (λ (raw, i, ls) h. h))
