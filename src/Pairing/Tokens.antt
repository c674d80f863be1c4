-- ===== src/Pairing/Tokens.antt =====
-- The session tokens of apps/server/src/services/PairingService.ts. HMAC-SHA256, the JSON payload
-- and base64url are a parameter: `encode` makes the payload text of a token from its time and
-- nonce, `sign` is the signature text of a payload, and `decode` reads a payload: `none` when it does
-- not parse or is `null`, so that reading its `issuedAt` throws, `some none` when its `issuedAt`
-- converts to no number, and `some (some t)` when it is the time `t`. A time that is negative or has
-- a fraction is left out.
use Prim.Native.Char.{Char, code}
use Prim.Native.String
use text.Mathlib.TextLemmas.{nil-append, cons-append}
use asterim.Prelude.{
  ℕ, ◌+◌, ◌*◌, ◌≤◌, ◌⊎◌, ◌↔◌, String, Bool, true, false, Option, none, some, List, [], ◌∷◌, ◌≡◌,
  refl, ap, arith, if◌then◌else◌, ltb, ◌==◌, str_eq, str_eq_refl, str_eq_iff, not, Bool-cases, inl,
  inr,
}

pub record TokenFormat : Type 0 where
  pub encode : ℕ → String → String
  pub decode : String → Option (Option ℕ)
  pub sign : String → String

-- `s.split('.')`.
add_head : Char → List String → List String
add_head c [] = String.◌∷◌ c String.[] ∷ []
add_head c (p ∷ ps) = String.◌∷◌ c p ∷ ps

unfoldable pub split_dot : String → List String
unfolding add_head
split_dot String.[] = String.[] ∷ []
split_dot (String.◌∷◌ c s) =
    let rest = split_dot s in if code c == b'.' then String.[] ∷ rest else add_head c rest

unfoldable pub generate_token : TokenFormat → ℕ → String → String
generate_token f now nonce =
    let payload = f.encode now nonce in String.◌++◌ payload (String.◌∷◌ "." (f.sign payload))

abbrev pub thirty_days_ms : ℕ
thirty_days_ms = 30 * 24 * 60 * 60 * 1000

-- `Date.now() - payload.issuedAt > thirtyDaysMs` refuses. Without a number the difference is NaN, and
-- no comparison with it holds. A payload that cannot be read throws, and the `catch` answers `false`.
abbrev pub is_fresh : ℕ → Option (Option ℕ) → Bool
is_fresh now none = false
is_fresh now (some none) = true
is_fresh now (some (some issued_at)) = not (ltb (issued_at + thirty_days_ms) now)

-- Two parts, the signature of the first part as the second, and a payload that is not too old. A
-- signature of another length is refused too: `timingSafeEqual` throws on it.
abbrev pub validate_parts : TokenFormat → ℕ → List String → Bool
validate_parts f now (payload ∷ signature ∷ []) =
    if str_eq signature (f.sign payload) then is_fresh now (f.decode payload) else false
validate_parts f now _ = false

unfoldable pub validate_token : TokenFormat → ℕ → String → Bool
unfolding split_dot
validate_token f now token = validate_parts f now (split_dot token)

abbrev pub NoDot : String → Type 0
NoDot String.[] = Unit
NoDot (String.◌∷◌ c s) = ((code c == b'.') ≡ false) × NoDot s

split_dot-NoDot : (s : String) → NoDot s → split_dot s ≡ s ∷ []
unfolding split_dot
split_dot-NoDot String.[] h = refl
split_dot-NoDot (String.◌∷◌ c s) (p, h) = rw (p, split_dot-NoDot s h) refl

split_dot-append :
    (s t : String) → NoDot s → split_dot (String.◌++◌ s (String.◌∷◌ "." t)) ≡ s ∷ split_dot t
unfolding split_dot
split_dot-append String.[] t h = rw nil-append refl
split_dot-append (String.◌∷◌ c s) t (p, h) = rw cons-append (rw (p, split_dot-append s t h) refl)

-- What base64url and the JSON round trip give: neither text holds a dot, and the time comes back.
pub record IsFormat (f : TokenFormat) : Type 0 where
  pub encode_no_dot : (now : ℕ) (nonce : String) → NoDot (f.encode now nonce)
  pub sign_no_dot : (payload : String) → NoDot (f.sign payload)
  pub decode-encode : (now : ℕ) (nonce : String) → f.decode (f.encode now nonce) ≡ some (some now)

-- A token is valid from its making until thirty days later, and not after.
pub validate-generate :
    (f : TokenFormat) (now later : ℕ) (nonce : String)
    → IsFormat f
    → validate_token f later (generate_token f now nonce) ≡ not (ltb (now + thirty_days_ms) later)
unfolding validate_token generate_token
validate-generate f now later nonce v =
    let payload = f.encode now nonce in
    rw
      (
        split_dot-append payload (f.sign payload) (v.encode_no_dot now nonce),
        split_dot-NoDot (f.sign payload) (v.sign_no_dot payload),
        str_eq_refl (f.sign payload),
        v.decode-encode now nonce,
      )
      refl

-- A payload that can be read, whose time, if it holds one, is at most thirty days ago.
abbrev pub IsCurrent : ℕ → Option (Option ℕ) → Type 0
IsCurrent now payload =
    (payload ≡ some none)
    ⊎ ((issued_at : ℕ) × (payload ≡ some (some issued_at)) × (now ≤ issued_at + thirty_days_ms))

is_fresh-IsCurrent : (now : ℕ) (o : Option (Option ℕ)) → is_fresh now o ≡ true → IsCurrent now o
is_fresh-IsCurrent now none h = absurd (cc)
is_fresh-IsCurrent now (some none) h = inl refl
is_fresh-IsCurrent now (some (some issued_at)) h = inr (issued_at, refl, ground arith)

IsCurrent-is_fresh : (now : ℕ) (o : Option (Option ℕ)) → IsCurrent now o → is_fresh now o ≡ true
IsCurrent-is_fresh now o (inl timeless) = rw timeless refl
IsCurrent-is_fresh now o (inr (issued_at, timed, fresh)) = rw timed (ground arith)

validate_parts_sound :
    (f : TokenFormat) (now : ℕ) (parts : List String)
    → validate_parts f now parts ≡ true
    → (payload : String) × (parts ≡ payload ∷ f.sign payload ∷ [])
      × IsCurrent now (f.decode payload)
validate_parts_sound f now [] h = absurd (cc)
validate_parts_sound f now (p ∷ []) h = absurd (cc)
validate_parts_sound f now (p ∷ q ∷ []) h = elim (Bool-cases (str_eq q (f.sign p))) [
  | inl same ↦ (
    p,
    ap (λ x. p ∷ x ∷ []) ((str_eq_iff q (f.sign p)).0 same),
    is_fresh-IsCurrent now (f.decode p) (rw same at h),
  )
  | inr other ↦ absurd (ground arith)
]
validate_parts_sound f now (p ∷ q ∷ r ∷ rest) h = absurd (cc)

-- The service accepts a token exactly when it is two texts with a dot between them, the second is
-- the signature of the first under the service's secret, and the first can be read and either holds
-- no numeric time at all or one at most thirty days ago: a signed payload without a numeric
-- `issuedAt` never expires.
pub validate_token_sound :
    (f : TokenFormat) (now : ℕ) (token : String)
    → (validate_token f now token ≡ true) ↔ (
        (payload : String) × (split_dot token ≡ payload ∷ f.sign payload ∷ [])
        × IsCurrent now (f.decode payload))
unfolding validate_token
validate_token_sound f now token = (
  λ h. validate_parts_sound f now (split_dot token) h,
  λ (payload, parts, current).
      rw (parts, str_eq_refl (f.sign payload)) (IsCurrent-is_fresh now (f.decode payload) current),
)
