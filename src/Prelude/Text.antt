-- ===== src/Prelude/Text.antt =====
-- What the program uses of JavaScript's strings, over their code points.
use Prim.Native.Nat.{ℕ, suc, ◌+◌, ◌-◌}
use Prim.Native.Char.{Char, code}
use Prim.Native.String.{String, [], ◌∷◌}
use mathlib.Core.Bool.{Bool, true, false, ◌&&◌, ◌||◌}
use mathlib.Core.Option.{Option, none, some}
use asterim.Prelude.Tests.{◌==◌, leb, if◌then◌else◌, is_some}

-- The white space that `trim` removes.
abbrev pub is_space : Char → Bool
is_space c =
    let n = code c in
    (leb 9 n && leb n 13)
    || (n == 32)
    || (n == 160)
    || (n == 0x1680)
    || (leb 0x2000 n && leb n 0x200a)
    || (n == 0x2028)
    || (n == 0x2029)
    || (n == 0x202f)
    || (n == 0x205f)
    || (n == 0x3000)
    || (n == 0xfeff)

abbrev pub is_empty : String → Bool
is_empty [] = true
is_empty (c ∷ s) = false

unfoldable pub trim_start : String → String
trim_start [] = []
trim_start (c ∷ s) = let rest = trim_start s in if is_space c then rest else c ∷ s

unfoldable pub trim_end : String → String
trim_end [] = []
trim_end (c ∷ s) = let rest = trim_end s in if is_space c && is_empty rest then [] else c ∷ rest

unfoldable pub trim : String → String
unfolding trim_start trim_end
trim s = trim_end (trim_start s)

-- How many code points a text has.
unfoldable pub text_length : String → ℕ
text_length [] = 0
text_length (c ∷ s) = suc (text_length s)

-- The rest of a text behind a prefix, if it starts with it.
unfoldable pub strip_prefix : String → String → Option String
strip_prefix [] s = some s
strip_prefix (p ∷ ps) [] = none
strip_prefix (p ∷ ps) (c ∷ s) =
    let rest = strip_prefix ps s in if code p == code c then rest else none

-- `s.length`: how many UTF-16 code units a text has.
unfoldable pub text_units : String → ℕ
text_units [] = 0
text_units (c ∷ s) = (if leb 0x10000 (code c) then 2 else 1) + text_units s

-- The longest beginning of a text with at most so many code units.
unfoldable pub take_units : ℕ → String → String
take_units n [] = []
take_units n (c ∷ s) =
    let size : ℕ = if leb 0x10000 (code c) then 2 else 1 in
    let rest = take_units (n - size) s in if leb size n then c ∷ rest else []

unfoldable pub join : String → String → String
join [] t = t
join (c ∷ s) t = c ∷ join s t

-- `s.includes(t)`.
unfoldable pub contains_text : String → String → Bool
unfolding strip_prefix
contains_text [] t = is_empty t
contains_text (c ∷ s) t = is_some (strip_prefix t (c ∷ s)) || contains_text s t

unfoldable pub all_chars : (Char → Bool) → String → Bool
all_chars p [] = true
all_chars p (c ∷ s) = p c && all_chars p s

-- `replace(/\s+/g, ' ')`.
abbrev pub starts_spaced : String → Bool
starts_spaced [] = false
starts_spaced (c ∷ s) = is_space c

unfoldable pub collapse : String → String
unfolding join
collapse [] = []
collapse (c ∷ s) =
    let rest = collapse s in
    let spaced = if starts_spaced rest then rest else join " " rest in
    if is_space c then spaced else c ∷ rest
