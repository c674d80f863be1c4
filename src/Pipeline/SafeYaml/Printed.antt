-- ===== src/Pipeline/SafeYaml/Printed.antt =====
-- A printer of flat documents, and what the scalar readers make of its quoted texts.
use Prim.Native.Char.{Char, code}
use Prim.Native.String.{String, [], ◌∷◌}
use package.text.Mathlib.TextEquality.{Char-path}
use asterim.Prelude.{
  ℕ, ◌+◌, ◌*◌, text_length, subst, Bool, true, false, ◌&&◌, ◌≡◌, refl, ap, sym, ◌∙◌, inl, inr, some,
  arith, if◌then◌else◌, ◌==◌, Bool-cases, is_space, is_empty, trim, trim_start, trim_end, join,
}
use asterim.Pipeline.Parser.Values.{YamlValue, text, Number}
use asterim.Pipeline.SafeYaml.Answers.{Answer, value}
use asterim.Pipeline.SafeYaml.Scalars.{
  double_quote, backslash, escape_of, unescape_from, body_of, unquote, outside, inside, strip_from,
  cut_key,
}
use asterim.Pipeline.SafeYaml.Flow.{parse_scalar, scalar_by, whole_flow, read_flow_value}
use asterim.Pipeline.SafeYaml.Plain.{single_value}
use asterim.Pipeline.SafeYaml.Lines.{strip_return}

-- In double quotes, with a text behind.
abbrev pub escape_char : Char → String → String
escape_char c rest =
    if code c == b'\n'
    then "\\" ∷ "n" ∷ rest
    else if code c == b'\t'
    then "\\" ∷ "t" ∷ rest
    else if code c == b'\r'
    then "\\" ∷ "r" ∷ rest
    else if code c == double_quote
    then "\\" ∷ "\"" ∷ rest
    else if code c == backslash
    then "\\" ∷ "\\" ∷ rest
    else c ∷ rest

unfoldable pub escaped : String → String → String
escaped [] rest = rest
escaped (c ∷ s) rest = escape_char c (escaped s rest)

abbrev pub quoted : String → String → String
quoted s rest = "\"" ∷ escaped s ("\"" ∷ rest)

-- How a character is written: behind a backslash, or as it is.
pub data Written (c : Char) : Type 0 where
  pair :
      (d : Char)
      → ((rest : String) → escape_char c rest ≡ "\\" ∷ d ∷ rest)
      → escape_of d ≡ some c
      → (code d == b'\n') ≡ false
      → Written c
  itself :
      ((rest : String) → escape_char c rest ≡ c ∷ rest)
      → (code c == double_quote) ≡ false
      → (code c == backslash) ≡ false
      → (code c == b'\n') ≡ false
      → Written c

test_eq : (m n : ℕ) → (m == n) ≡ true → m ≡ n
test_eq m n h = ground arith

pub written : (c : Char) → Written c
written c = elim (Bool-cases (code c == b'\n')) [
  | inl e ↦ pair "n" (λ rest. rw e refl) (ap some (Char-path "\n" c (sym (test_eq _ _ e)))) refl
  | inr e₁ ↦ elim (Bool-cases (code c == b'\t')) [
    | inl e ↦
        pair "t" (λ rest. rw (e₁, e) refl) (ap some (Char-path "\t" c (sym (test_eq _ _ e)))) refl
    | inr e₂ ↦ elim (Bool-cases (code c == b'\r')) [
      | inl e ↦
          pair "r" (λ rest. rw (e₁, e₂, e) refl) (ap some (Char-path "\r" c (sym (test_eq _ _ e))))
            refl
      | inr e₃ ↦ elim (Bool-cases (code c == double_quote)) [
        | inl e ↦
            pair "\"" (λ rest. rw (e₁, e₂, e₃, e) refl)
              (ap some (Char-path "\"" c (sym (test_eq _ _ e)))) refl
        | inr e₄ ↦ elim (Bool-cases (code c == backslash)) [
          | inl e ↦
              pair "\\" (λ rest. rw (e₁, e₂, e₃, e₄, e) refl)
                (ap some (Char-path "\\" c (sym (test_eq _ _ e)))) refl
          | inr e₅ ↦ itself (λ rest. rw (e₁, e₂, e₃, e₄, e₅) refl) e₄ e₅ e₁
        ]
      ]
    ]
  ]
]

unescape-escaped : (s : String) (line : ℕ) → unescape_from false (escaped s []) line ≡ value s
unfolding escaped unescape_from
unescape-escaped [] line = refl
unescape-escaped (c ∷ s) line = elim (written c) [
  | pair d e back _ ↦ rw (e (escaped s []), back, unescape-escaped s line) refl
  | itself e _ plain _ ↦ rw (e (escaped s []), plain, unescape-escaped s line) refl
]

escaped-join : (s rest : String) → escaped s rest ≡ join (escaped s []) rest
unfolding escaped join
escaped-join [] rest = refl
escaped-join (c ∷ s) rest = elim (written c) [
  | pair d e _ _ ↦
      rw (e (escaped s rest), e (escaped s []))
        (ap (λ (t : String). "\\" ∷ d ∷ t) (escaped-join s rest))
  | itself e _ _ _ ↦
      rw (e (escaped s rest), e (escaped s [])) (ap (λ (t : String). c ∷ t) (escaped-join s rest))
]

body_of-join : (t : String) → body_of double_quote (join t "\"") ≡ some t
unfolding body_of join
body_of-join [] = refl
body_of-join (c ∷ []) = refl
body_of-join (c ∷ d ∷ t) = rw (body_of-join (d ∷ t)) refl

body_of-escaped : (s : String) → body_of double_quote (escaped s "\"") ≡ some (escaped s [])
body_of-escaped s = rw (escaped-join s "\"") (body_of-join (escaped s []))

unless : (a b : Bool) (t : String) → b ≡ false → (if a && b then [] else t) ≡ t
unless true b t h = rw h refl
unless false b t h = refl

-- The text ends in neither white space nor a carriage return.
abbrev pub Ends : String → Type 0
Ends s = (trim_end s ≡ s) × (strip_return s ≡ s) × (is_empty s ≡ false)

pub cons-Ends : (c : Char) (s : String) → Ends s → Ends (c ∷ s)
unfolding trim_end strip_return
cons-Ends c s h = (
  unless (is_space c) (is_empty (trim_end s)) (c ∷ trim_end s) (ap is_empty h.0 ∙ h.2)
      ∙ ap (λ (t : String). c ∷ t) h.0,
  unless (code c == b'\r') (is_empty s) (c ∷ strip_return s) h.2 ∙ ap (λ (t : String). c ∷ t) h.1,
  refl,
)

pub escaped-Ends : (s rest : String) → Ends rest → Ends (escaped s rest)
unfolding escaped
escaped-Ends [] rest h = h
escaped-Ends (c ∷ s) rest h = elim (written c) [
  | pair d e _ _ ↦
      rw (e (escaped s rest)) (cons-Ends "\\" _ (cons-Ends d _ (escaped-Ends s rest h)))
  | itself e _ _ _ ↦ rw (e (escaped s rest)) (cons-Ends c _ (escaped-Ends s rest h))
]

pub quoted-Ends : (s rest : String) → Ends ("\"" ∷ rest) → Ends (quoted s rest)
quoted-Ends s rest h = cons-Ends "\"" _ (escaped-Ends s ("\"" ∷ rest) h)

pub quote-Ends : Ends "\""
unfolding trim_end strip_return
quote-Ends = (refl, refl, refl)

pub trim-quoted : (s rest : String) → Ends ("\"" ∷ rest) → trim (quoted s rest) ≡ quoted s rest
unfolding trim trim_start
trim-quoted s rest h = (quoted-Ends s rest h).0

pub unquote-quoted : (s : String) (line : ℕ) → unquote (quoted s []) line ≡ value s
unfolding unquote
unquote-quoted s line = rw (body_of-escaped s) (unescape-escaped s line)

scalar_by-quoted :
    (number_of : String → Number) (line : ℕ) (flow : String → Answer YamlValue) (s : String)
    → scalar_by number_of line flow (quoted s []) ≡ value (text s)
unfolding single_value
scalar_by-quoted number_of line flow s = rw (body_of-escaped s, unescape-escaped s line) refl

pub parse_scalar-quoted :
    (number_of : String → Number) (line : ℕ) (s : String)
    → parse_scalar number_of line (quoted s []) ≡ value (text s)
unfolding parse_scalar
parse_scalar-quoted number_of line s =
    let flow : String → Answer YamlValue =
      λ t. whole_flow number_of line (read_flow_value number_of line (2 * text_length t + 1) 0 t) in
    subst (λ t. scalar_by number_of line flow t ≡ value (text s))
      (sym (trim-quoted s [] quote-Ends)) (scalar_by-quoted number_of line flow s)

pub strip_from-escaped :
    (s rest : String) (spaced : Bool)
    → strip_from (inside double_quote) spaced (escaped s ("\"" ∷ rest))
      ≡ escaped s ("\"" ∷ strip_from outside false rest)
unfolding escaped strip_from
strip_from-escaped [] rest spaced = refl
strip_from-escaped (c ∷ s) rest spaced = elim (written c) [
  | pair d e _ _ ↦
      rw
        (
          e (escaped s ("\"" ∷ rest)),
          e (escaped s ("\"" ∷ strip_from outside false rest)),
          strip_from-escaped s rest (is_space d),
        )
        refl
  | itself e q plain _ ↦
      rw
        (
          e (escaped s ("\"" ∷ rest)),
          e (escaped s ("\"" ∷ strip_from outside false rest)),
          q,
          plain,
          strip_from-escaped s rest (is_space c),
        )
        refl
]

pub cut_key-escaped :
    (s rest k r : String)
    → cut_key outside rest ≡ some (k, r)
    → cut_key (inside double_quote) (escaped s ("\"" ∷ rest)) ≡ some (escaped s ("\"" ∷ k), r)
unfolding escaped cut_key
cut_key-escaped [] rest k r h = rw h refl
cut_key-escaped (c ∷ s) rest k r h = elim (written c) [
  | pair d e _ _ ↦
      rw (e (escaped s ("\"" ∷ rest)), e (escaped s ("\"" ∷ k)), cut_key-escaped s rest k r h) refl
  | itself e q plain _ ↦
      rw
        (
          e (escaped s ("\"" ∷ rest)),
          e (escaped s ("\"" ∷ k)),
          q,
          plain,
          cut_key-escaped s rest k r h,
        )
        refl
]
