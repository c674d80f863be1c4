-- ===== src/Pipeline/SafeYaml/Texts.antt =====
-- What the readers of texts leave: no more than they were given, and never for want of fuel.
use Prim.Native.Char.{Char, code}
use Prim.Native.String.{String, [], ◌∷◌}
use asterim.Prelude.{
  ℕ, suc, ◌≤◌, Bool, true, false, ◌≡◌, refl, Option, none, some, inl, inr, arith, if◌then◌else◌,
  ◌==◌, is_space, is_empty, trim, trim_start, trim_end, text_length, Bool-cases,
}
use asterim.Pipeline.Parser.Values.{text, boolean, number, null, Number}
use asterim.Pipeline.SafeYaml.Answers.{Answer, value, thrown, empty_key}
use asterim.Pipeline.SafeYaml.Scalars.{
  backslash, single_quote, double_quote, is_quote, before, escape_of, unescape_from,
  unescape_double_quoted, unescaped, add_char, body_of, unquote, key_and_rest, split_key, cut_key,
  single_quoted, double_quoted, outside,
}
use asterim.Pipeline.SafeYaml.Flow.{take_quoted, take_plain}
use asterim.Pipeline.SafeYaml.Plain.{is_refused_sigil, single_value}
use asterim.Pipeline.SafeYaml.Safe.{IsSafe, Meets, Meets-bind, Meets-throw_if, Meets-if}

-- The text is empty or starts with no white space.
abbrev pub IsSolid : String → Type 0
IsSolid [] = Unit
IsSolid (c ∷ s) = is_space c ≡ false

pub text_length-trim_start : (s : String) → text_length (trim_start s) ≤ text_length s
unfolding text_length trim_start
text_length-trim_start [] = omega arith
text_length-trim_start (c ∷ s) = ground (arith, text_length-trim_start s)

pub trim_start-IsSolid : (s : String) → IsSolid (trim_start s)
unfolding trim_start
trim_start-IsSolid [] = tt
trim_start-IsSolid (c ∷ s) = elim (Bool-cases (is_space c)) [
  | inl e ↦ rw e (trim_start-IsSolid s)
  | inr e ↦ rw e e
]

trim_start_solid : (s : String) → IsSolid s → trim_start s ≡ s
unfolding trim_start
trim_start_solid [] h = refl
trim_start_solid (c ∷ s) h = rw h refl

trim_end_solid : (c : Char) (s : String) → is_space c ≡ false → trim_end (c ∷ s) ≡ c ∷ trim_end s
unfolding trim_end
trim_end_solid c s h = rw h refl

pub trim_solid : (c : Char) (s : String) → is_space c ≡ false → trim (c ∷ s) ≡ c ∷ trim_end s
unfolding trim
trim_solid c s h = rw (trim_start_solid (c ∷ s) h) (trim_end_solid c s h)

trim_end-IsSolid : (s : String) → IsSolid s → IsSolid (trim_end s)
trim_end-IsSolid [] h = unfold trim_end in tt
trim_end-IsSolid (c ∷ s) h = rw (trim_end_solid c s h) h

pub trim-IsSolid : (s : String) → IsSolid (trim s)
unfolding trim
trim-IsSolid s = trim_end-IsSolid (trim_start s) (trim_start-IsSolid s)

-- What is left behind a text.
abbrev pub LeavesOf : ℕ → Option (String × String) → Type 0
LeavesOf n none = Unit
LeavesOf n (some (t, rest)) = text_length rest ≤ n

before-LeavesOf :
    (n : ℕ) (c : Char) (o : Option (String × String)) → LeavesOf n o → LeavesOf (suc n) (before c o)
before-LeavesOf n c none h = tt
before-LeavesOf n c (some (t, rest)) h = omega arith

pub weaken : (n : ℕ) (o : Option (String × String)) → LeavesOf n o → LeavesOf (suc n) o
weaken n none h = tt
weaken n (some (t, rest)) h = omega arith

if-LeavesOf :
    (n : ℕ) (b : Bool) (o p : Option (String × String))
    → LeavesOf n o
    → LeavesOf n p
    → LeavesOf n (if b then o else p)
if-LeavesOf n true o p h k = h
if-LeavesOf n false o p h k = k

pub take_quoted-LeavesOf :
    (q : ℕ) (b : Bool) (s : String) → LeavesOf (text_length s) (take_quoted q b s)
unfolding take_quoted text_length
take_quoted-LeavesOf q b [] = tt
take_quoted-LeavesOf q true (c ∷ s) = before-LeavesOf _ c _ (take_quoted-LeavesOf q false s)
take_quoted-LeavesOf q false (c ∷ s) =
    if-LeavesOf _ _ (some (c ∷ [], s)) _ (omega arith)
      (before-LeavesOf _ c _ (take_quoted-LeavesOf q _ s))

pub take_plain_leaves :
    (is_key : Bool) (s : String) → text_length (take_plain is_key s).1 ≤ text_length s
unfolding take_plain text_length
take_plain_leaves is_key [] = omega arith
take_plain_leaves is_key (c ∷ s) = ground (arith, take_plain_leaves is_key s)

abbrev AnyText : String → Type 0
AnyText s = Unit

add_char-Meets : (c : Char) (a : Answer String) → Meets AnyText a → Meets AnyText (add_char c a)
add_char-Meets c (value s) h = tt
add_char-Meets c (thrown e) h = h

unescaped-Meets :
    (o : Option Char) (c : Char) (a : Answer String) (line : ℕ)
    → Meets AnyText a
    → Meets AnyText (unescaped o c a line)
unescaped-Meets none c a line h = tt
unescaped-Meets (some d) c a line h = add_char-Meets d a h

unescape_from-Meets : (b : Bool) (s : String) (line : ℕ) → Meets AnyText (unescape_from b s line)
unfolding unescape_from
unescape_from-Meets false [] line = tt
unescape_from-Meets true [] line = tt
unescape_from-Meets true (c ∷ s) line =
    unescaped-Meets (escape_of c) c _ line (unescape_from-Meets false s line)
unescape_from-Meets false (c ∷ s) line =
    Meets-if AnyText _ (code c == backslash) _ (λ _. unescape_from-Meets true s line)
      (λ _. add_char-Meets c _ (unescape_from-Meets false s line))

double_quoted-Meets : (o : Option String) (line : ℕ) → Meets AnyText (double_quoted o line)
unfolding unescape_double_quoted
double_quoted-Meets none line = tt
double_quoted-Meets (some body) line = unescape_from-Meets false body line

single_quoted-Meets : (o : Option String) (line : ℕ) → Meets AnyText (single_quoted o line)
single_quoted-Meets none line = tt
single_quoted-Meets (some body) line = tt

pub unquote-Meets : (s : String) (line : ℕ) → Meets AnyText (unquote s line)
unfolding unquote
unquote-Meets [] line = tt
unquote-Meets (c ∷ s) line =
    Meets-if AnyText _ (code c == single_quote) _
      (λ _. single_quoted-Meets (body_of single_quote s) line)
      (λ _.
        Meets-if AnyText _ (code c == double_quote) (value (c ∷ s))
          (λ _. double_quoted-Meets (body_of double_quote s) line) (λ _. tt))

abbrev AnyPair : String × String → Type 0
AnyPair p = Unit

key_and_rest-Meets : (o : Option (String × String)) (line : ℕ) → Meets AnyPair (key_and_rest o line)
key_and_rest-Meets none line = tt
key_and_rest-Meets (some (k, rest)) line =
    Meets-throw_if AnyPair _ (is_empty (trim k)) empty_key line tt (λ _.
      Meets-bind AnyText AnyPair (unquote (trim k) line) _ (unquote-Meets (trim k) line)
        (λ key h. tt))

pub split_key-Meets :
    (s : String) (line : ℕ) → Meets (λ (p : String × String). Unit) (split_key s line)
unfolding split_key
split_key-Meets s line = key_and_rest-Meets (cut_key outside s) line

plain_chosen-IsSafe :
    (n : ℕ) (a b c d : Bool) (k : Number) (s : String)
    → IsSafe n (
        if a
        then null
        else if b
        then boolean true
        else if c
        then boolean false
        else if d
        then number k
        else text s)
plain_chosen-IsSafe n true b c d k s = tt
plain_chosen-IsSafe n false true c d k s = tt
plain_chosen-IsSafe n false false true d k s = tt
plain_chosen-IsSafe n false false false true k s = tt
plain_chosen-IsSafe n false false false false k s = tt

pub single_value-Meets :
    (number_of : String → Number) (n : ℕ) (s : String) (line : ℕ)
    → Meets (IsSafe n) (single_value number_of s line)
unfolding single_value
single_value-Meets number_of n [] line = tt
single_value-Meets number_of n (c ∷ s) line =
    Meets-if (IsSafe n) _ (is_refused_sigil c) _ (λ _. tt)
      (λ _.
        Meets-if (IsSafe n) _ (is_quote c) _
          (λ _.
            Meets-bind AnyText (IsSafe n) (unquote (c ∷ s) line) _ (unquote-Meets (c ∷ s) line)
              (λ t h. tt))
          (λ _. plain_chosen-IsSafe n _ _ _ _ (number_of (c ∷ s)) (c ∷ s)))
