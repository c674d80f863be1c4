-- ===== src/Relay/Authorize.antt =====
-- `authorizeRegistration` and `normalizeAddress` of apps/relay/src/relayServer.ts. The signature,
-- HMAC-SHA256 of the tunnel id, a colon and the timestamp, in hex, is the parameter `sign`.
use Prim.Native.Char.{Char, code}
use asterim.Prelude.{
  ℕ, ◌+◌, ◌≤◌, ◌≡◌, refl, arith, String, Bool, true, false, ◌&&◌, ◌||◌, not, Option, none, some,
  if◌then◌else◌, ltb, leb, ◌==◌, str_eq, trim, text_length, all_chars, strip_prefix, is_empty,
  get_or, str_eq_iff, Bool-cases, inl, inr,
}

-- A bare text stands for a registration with that id alone. A field that is missing or has another
-- type is `none`, and so is a timestamp that is not finite.
pub record TunnelRegistration : Type 0 where
  pub tunnel_id : Option String
  pub signature : Option String
  pub timestamp : Option ℕ

pub data ErrorCode : Type 0 where
  auth_failed rate_limited invalid_tunnel tunnel_not_found not_in_tunnel : ErrorCode

pub data Verdict : Type 0 where
  accepted : String → Verdict
  rejected : ErrorCode → Verdict

-- `/^[A-Za-z0-9_.-]{1,64}$/`.
abbrev pub is_id_char : Char → Bool
is_id_char c =
    let n = code c in
    (leb b'A' n && leb n b'Z')
    || (leb b'a' n && leb n b'z')
    || (leb b'0' n && leb n b'9')
    || (n == b'_')
    || (n == b'.')
    || (n == b'-')

unfoldable pub is_tunnel_id : String → Bool
is_tunnel_id s = all_chars is_id_char s && leb 1 (text_length s) && leb (text_length s) 64

-- `Math.abs(now - timestamp) > tolerance`.
abbrev pub is_stale : ℕ → ℕ → ℕ → Bool
is_stale now timestamp tolerance =
    ltb (timestamp + tolerance) now || ltb (now + tolerance) timestamp

-- `!options.secret`: no secret, or an empty one.
abbrev pub open_relay : Option String → Bool
open_relay none = true
open_relay (some secret) = is_empty secret

module _ (sign : String → ℕ → String → String) where
  abbrev pub check_signed : String → ℕ → ℕ → String → Option String → Option ℕ → Verdict
  check_signed tunnel_id now tolerance secret (some signature) (some timestamp) =
      if is_stale now timestamp tolerance
      then rejected auth_failed
      else if str_eq (sign tunnel_id timestamp secret) signature
      then accepted tunnel_id
      else rejected auth_failed
  check_signed tunnel_id now tolerance secret _ _ = rejected auth_failed

  unfoldable pub authorize_registration : TunnelRegistration → Option String → ℕ → ℕ → Verdict
  unfolding is_tunnel_id trim
  authorize_registration r secret now tolerance =
      let tunnel_id = trim (get_or r.tunnel_id "") in
      if not (is_tunnel_id tunnel_id)
      then rejected invalid_tunnel
      else if open_relay secret
      then accepted tunnel_id
      else check_signed tunnel_id now tolerance (get_or secret "") r.signature r.timestamp

  check_signed_accepted :
      (t tunnel_id : String) (now tolerance : ℕ) (secret : String) (signature : Option String)
      (date : Option ℕ)
      → check_signed t now tolerance secret signature date ≡ accepted tunnel_id
      → (timestamp : ℕ) × (date ≡ some timestamp)
        × (signature ≡ some (sign tunnel_id timestamp secret))
        × (now ≤ timestamp + tolerance)
        × (timestamp ≤ now + tolerance)
        × (t ≡ tunnel_id)
  check_signed_accepted t tunnel_id now tolerance secret (some signature) (some d) h =
      let same : t ≡ tunnel_id = ground arith in
      (
        d,
        refl,
        rw (← same) (ground (arith, str_eq_iff (sign t d secret) signature)),
        ground arith,
        ground arith,
        same,
      )
  check_signed_accepted t tunnel_id now tolerance secret (some signature) none h = absurd (cc)
  check_signed_accepted t tunnel_id now tolerance secret none date h = absurd (cc)

  -- A relay with a secret opens a tunnel only for a registration that names it by a well-formed id,
  -- is dated within the tolerance of the relay's clock on either side, and carries the signature of
  -- exactly that id and date under the secret.
  pub authorize_registration_accepted :
      (r : TunnelRegistration) (secret : String) (now tolerance : ℕ) (tunnel_id : String)
      → is_empty secret ≡ false
      → authorize_registration r (some secret) now tolerance ≡ accepted tunnel_id
      → (timestamp : ℕ) × (r.timestamp ≡ some timestamp)
        × (r.signature ≡ some (sign tunnel_id timestamp secret))
        × (now ≤ timestamp + tolerance)
        × (timestamp ≤ now + tolerance)
        × (is_tunnel_id tunnel_id ≡ true)
  unfolding authorize_registration
  authorize_registration_accepted r secret now tolerance tunnel_id secured h =
      let t = trim (get_or r.tunnel_id "") in
      elim (Bool-cases (is_tunnel_id t)) [
        | inr bad ↦ absurd (ground arith)
        | inl good ↦
            let checked : check_signed t now tolerance secret r.signature r.timestamp
                ≡ accepted tunnel_id =
              rw (good, secured) at h in
            let (date, dated, signed, lo, hi, same) =
              check_signed_accepted t tunnel_id now tolerance secret r.signature r.timestamp
                checked in
            (date, dated, signed, lo, hi, rw (← same) good)
      ]

-- `address.startsWith('::ffff:') ? address.slice(7) : address`; no address, or an empty one, is
-- `'unknown'`.
abbrev pub unmapped : String → Option String → String
unmapped address none = address
unmapped address (some v4) = v4

unfoldable pub normalize_address : Option String → String
normalize_address none = "unknown"
normalize_address (some address) =
    if is_empty address then "unknown" else unmapped address (strip_prefix "::ffff:" address)
