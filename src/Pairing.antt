-- ===== src/Pairing.antt =====
-- Device pairing (apps/server/src/services/PairingService.ts): the PIN, the accounting of failed
-- attempts and the lockout.
--
-- Times are milliseconds, and each method takes the value of `this.now()`; the calls of `now` within
-- one synchronous stretch are taken to agree. `attemptPairing` is cut at its `await`: `begin_attempt`
-- is what runs before the delay and `finish_attempt` what runs after it, so that any number of other
-- attempts may run in between.
pub mod Budget
pub mod Expiry
pub mod Lockout
pub mod Tokens
mod Examples
use asterim.Prelude.{
  ℕ, zero, suc, ◌+◌, ◌-◌, ◌*◌, ◌^◌, min, String, Bool, true, false, ◌&&◌, Option, none, some, List,
  [], ◌∷◌, if◌then◌else◌, ltb, leb, ◌==◌, str_eq, is_some, length, Map, get, put, delete, keys,
}

-- The private fields that a constructor sets once, and the PIN of this start.
pub record PairingOptions : Type 0 where
  pub max_attempts : ℕ
  pub lockout_ms : ℕ
  pub base_delay_ms : ℕ
  pub max_delay_ms : ℕ

abbrev pub default_options : PairingOptions
default_options = record {
  max_attempts = 5;
  lockout_ms = 15 * 60 * 1000;
  base_delay_ms = 500;
  max_delay_ms = 8000;
}

-- `locked_until` is 0 when the client is not locked.
pub record AttemptRecord : Type 0 where
  pub failures : ℕ
  pub last_failure_at : ℕ
  pub locked_until : ℕ

pub data PairingResult : Type 0 where
  paired : String → PairingResult
  invalid : ℕ → PairingResult
  locked : ℕ → PairingResult

-- `now - last > lockoutMs` is written as a sum, which is the same on every clock reading.
abbrev pub is_expired : PairingOptions → ℕ → AttemptRecord → Bool
is_expired o now r =
    if ltb 0 r.locked_until
    then leb r.locked_until now
    else ltb (r.last_failure_at + o.lockout_ms) now

-- `readRecord`: the record that counts, and the map without it if it does not.
abbrev pub live_record : PairingOptions → ℕ → Option AttemptRecord → Option AttemptRecord
live_record o now none = none
live_record o now (some r) = if is_expired o now r then none else some r

abbrev pub drop_expired :
    PairingOptions → ℕ → String → Option AttemptRecord → Map AttemptRecord → Map AttemptRecord
drop_expired o now client_id none attempts = attempts
drop_expired o now client_id (some r) attempts =
    if is_expired o now r then delete client_id attempts else attempts

unfoldable pub read_record :
    PairingOptions → ℕ → String → Map AttemptRecord → Option AttemptRecord × Map AttemptRecord
read_record o now client_id attempts = (
  live_record o now (get client_id attempts),
  drop_expired o now client_id (get client_id attempts) attempts,
)

-- `pruneIfCrowded`.
unfoldable pub prune_keys : PairingOptions → ℕ → List String → Map AttemptRecord → Map AttemptRecord
prune_keys o now [] attempts = attempts
prune_keys o now (k ∷ ks) attempts = prune_keys o now ks (read_record o now k attempts).1

unfoldable pub prune_if_crowded : PairingOptions → ℕ → Map AttemptRecord → Map AttemptRecord
unfolding prune_keys
prune_if_crowded o now attempts =
    if ltb (length attempts) 1024 then attempts else prune_keys o now (keys attempts) attempts

abbrev pub failures_of : Option AttemptRecord → ℕ
failures_of none = 0
failures_of (some r) = r.failures

-- `getLockState`: how long the client is still locked, if it is.
abbrev pub lock_state : ℕ → Option AttemptRecord → Option ℕ
lock_state now none = none
lock_state now (some r) = if r.locked_until == 0 then none else some (r.locked_until - now)

unfoldable pub get_failed_attempts : PairingOptions → ℕ → String → Map AttemptRecord → ℕ
unfolding read_record
get_failed_attempts o now client_id attempts = failures_of (read_record o now client_id attempts).0

unfoldable pub is_locked : PairingOptions → ℕ → String → Map AttemptRecord → Bool
unfolding read_record
is_locked o now client_id attempts =
    is_some (lock_state now (read_record o now client_id attempts).0)

unfoldable pub delay_for_failures : PairingOptions → ℕ → ℕ
delay_for_failures o zero = 0
delay_for_failures o (suc n) = min (o.base_delay_ms * 2 ^ n) o.max_delay_ms

unfoldable pub get_retry_delay_ms : PairingOptions → ℕ → String → Map AttemptRecord → ℕ
unfolding get_failed_attempts delay_for_failures
get_retry_delay_ms o now client_id attempts =
    delay_for_failures o (get_failed_attempts o now client_id attempts)

-- `resetAttempts`, for one client or for all.
unfoldable pub reset_attempts : Option String → Map AttemptRecord → Map AttemptRecord
reset_attempts none attempts = []
reset_attempts (some client_id) attempts = delete client_id attempts

-- `validatePin`; `none` is a PIN that is no text. Two texts have the same UTF-8 bytes exactly when
-- they are the same text.
unfoldable pub validate_pin : String → Option String → Bool
validate_pin current_pin none = false
validate_pin current_pin (some pin) = str_eq current_pin pin

-- What `attemptPairing` still knows after its delay.
pub record Ticket : Type 0 where
  pub client_id : String
  pub next_failures : ℕ
  pub locked_out : Bool
  pub delay : ℕ

pub data Begun : Type 0 where
  refused : PairingResult → Begun
  charged : Ticket → Begun

-- The record that charges an attempt after `failures` earlier ones.
abbrev pub charge : PairingOptions → ℕ → ℕ → AttemptRecord
charge o now failures = record {
  failures = failures + 1;
  last_failure_at = now;
  locked_until = if leb o.max_attempts (failures + 1) then now + o.lockout_ms else 0;
}

abbrev pub ticket : PairingOptions → String → ℕ → Ticket
ticket o client_id failures = record {
  client_id = client_id;
  next_failures = failures + 1;
  locked_out = leb o.max_attempts (failures + 1);
  delay = delay_for_failures o failures;
}

-- `attemptPairing` up to its `await`: the attempt is charged before the PIN is compared.
unfoldable pub begin_from :
    PairingOptions
    → ℕ
    → String
    → Option AttemptRecord
    → Map AttemptRecord
    → Map AttemptRecord × Begun
begin_from o now client_id live attempts = elim (lock_state now live) [
  | some retry_after_ms ↦ (attempts, refused (locked retry_after_ms))
  | none ↦ (
    put client_id (charge o now (failures_of live)) attempts,
    charged (ticket o client_id (failures_of live)),
  )
]

unfoldable pub begin_attempt :
    PairingOptions → ℕ → String → Map AttemptRecord → Map AttemptRecord × Begun
unfolding prune_if_crowded begin_from read_record
begin_attempt o now client_id attempts =
    let (live, kept) = read_record o now client_id (prune_if_crowded o now attempts) in
    begin_from o now client_id live kept

-- The rest of `attemptPairing`. `token` is what `generateToken` returns.
unfoldable pub finish_attempt :
    PairingOptions
    → String
    → Option String
    → String
    → Ticket
    → Map AttemptRecord
    → Map AttemptRecord × PairingResult
unfolding validate_pin reset_attempts
finish_attempt o current_pin pin token t attempts =
    if validate_pin current_pin pin
    then (reset_attempts (some t.client_id) attempts, paired token)
    else if t.locked_out
    then (attempts, locked o.lockout_ms)
    else (attempts, invalid (o.max_attempts - t.next_failures))

-- `attemptPairing` with nothing in between its two parts.
abbrev pub finish_begun :
    PairingOptions
    → String
    → Option String
    → String
    → Map AttemptRecord
    → Begun
    → Map AttemptRecord × PairingResult
finish_begun o current_pin pin token attempts (refused r) = (attempts, r)
finish_begun o current_pin pin token attempts (charged t) =
    finish_attempt o current_pin pin token t attempts

unfoldable pub attempt_pairing :
    PairingOptions
    → String
    → ℕ
    → String
    → Option String
    → String
    → Map AttemptRecord
    → Map AttemptRecord × PairingResult
unfolding begin_attempt finish_attempt
attempt_pairing o current_pin now client_id pin token attempts =
    let (attempts', begun) = begin_attempt o now client_id attempts in
    finish_begun o current_pin pin token attempts' begun
