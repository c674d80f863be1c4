-- ===== src/Pairing/Lockout.antt =====
-- One attempt after another: how failures add up to a lockout, what ends it, and how long an attempt
-- is delayed.
use native.Mathlib.Nat.{pow-suc}
use asterim.Prelude.{
  ℕ, zero, suc, ◌+◌, ◌-◌, ◌*◌, ◌^◌, ◌≤◌, ◌<◌, min, String, true, false, Option, none, some, List,
  [], ◌∷◌, ◌≡◌, inl, inr, refl, ap, ◌∙◌, arith, if◌then◌else◌, ltb, leb, ◌==◌, Bool-cases, length,
  Map, get, put, get-put_self,
}
use asterim.Pairing.{
  Begun, PairingOptions, AttemptRecord, paired, locked, live_record, read_record, failures_of,
  lock_state, charge, ticket, begin_from, begin_attempt, finish_attempt, finish_begun,
  attempt_pairing, validate_pin, delay_for_failures,
}
use asterim.Pairing.Expiry.{prune_if_crowded-live}
use asterim.Pairing.Budget.{begin_attempt-from, swept}

-- An attempt, seen from a record that counts.
attempt_pairing-from :
    (o : PairingOptions) (current_pin : String) (now : ℕ) (c : String) (pin : Option String)
    (token : String) (m : Map AttemptRecord)
    → live_record o now (get c m) ≡ get c m
    → attempt_pairing o current_pin now c pin token m ≡ (
        let b = begin_from o now c (get c m) (swept o now c m) in
        finish_begun o current_pin pin token b.0 b.1)
unfolding attempt_pairing
attempt_pairing-from o current_pin now c pin token m live =
    ap (λ b. finish_begun o current_pin pin token b.0 b.1) (begin_attempt-from o now c m live)

-- The attempt's charge, once the lock is free.
begin_from_free :
    (o : PairingOptions) (now : ℕ) (c : String) (g : Option AttemptRecord) (m : Map AttemptRecord)
    → lock_state now g ≡ none
    → begin_from o now c g m
      ≡ (put c (charge o now (failures_of g)) m, Begun.charged (ticket o c (failures_of g)))
unfolding begin_from
begin_from_free o now c g m free = rw (free, begin_from) refl

attempt_pairing_free :
    (o : PairingOptions) (current_pin : String) (now : ℕ) (c : String) (pin : Option String)
    (token : String) (m : Map AttemptRecord)
    → live_record o now (get c m) ≡ get c m
    → lock_state now (get c m) ≡ none
    → attempt_pairing o current_pin now c pin token m
      ≡ finish_attempt o current_pin pin token
          (ticket o c (failures_of (get c m)))
          (put c (charge o now (failures_of (get c m))) (swept o now c m))
attempt_pairing_free o current_pin now c pin token m live free =
    attempt_pairing-from o current_pin now c pin token m live
    ∙ ap (λ b. finish_begun o current_pin pin token b.0 b.1)
        (begin_from_free o now c (get c m) (swept o now c m) free)

-- A client's record after an attempt with a wrong PIN.
attempt_pairing_wrong :
    (o : PairingOptions) (current_pin : String) (now : ℕ) (c : String) (pin : Option String)
    (token : String) (m : Map AttemptRecord)
    → live_record o now (get c m) ≡ get c m
    → lock_state now (get c m) ≡ none
    → validate_pin current_pin pin ≡ false
    → get c (attempt_pairing o current_pin now c pin token m).0
      ≡ some (charge o now (failures_of (get c m)))
unfolding finish_attempt
attempt_pairing_wrong o current_pin now c pin token m live free wrong =
    rw (attempt_pairing_free o current_pin now c pin token m live free, wrong, finish_attempt)
      (elim (Bool-cases (leb o.max_attempts (failures_of (get c m) + 1))) [
        | inl e ↦ rw e (get-put_self c _ (swept o now c m))
        | inr e ↦ rw e (get-put_self c _ (swept o now c m))
      ])

attempt_pairing_locked :
    (o : PairingOptions) (current_pin : String) (now : ℕ) (c : String) (pin : Option String)
    (token : String) (m : Map AttemptRecord) (left : ℕ)
    → live_record o now (get c m) ≡ get c m
    → lock_state now (get c m) ≡ some left
    → (attempt_pairing o current_pin now c pin token m).1 ≡ locked left
unfolding begin_from
attempt_pairing_locked o current_pin now c pin token m left live shut =
    rw (attempt_pairing-from o current_pin now c pin token m live) (rw (shut, begin_from) refl)

-- Without a record that counts, the right PIN pairs.
attempt_pairing_right :
    (o : PairingOptions) (current_pin : String) (now : ℕ) (c : String) (pin : Option String)
    (token : String) (m : Map AttemptRecord)
    → live_record o now (get c m) ≡ none
    → validate_pin current_pin pin ≡ true
    → (attempt_pairing o current_pin now c pin token m).1 ≡ paired token
unfolding attempt_pairing begin_attempt read_record begin_from finish_attempt
attempt_pairing_right o current_pin now c pin token m gone right =
    rw (prune_if_crowded-live o now c m ∙ gone) (rw right refl)

-- A try: its time, its PIN, and the token that would be handed out.
abbrev pub Try : Type 0
Try = ℕ × Option String × String

-- One client's attempts, one after another.
unfoldable pub attempt_each :
    PairingOptions → String → String → List Try → Map AttemptRecord → Map AttemptRecord
unfolding attempt_pairing
attempt_each o current_pin c [] m = m
attempt_each o current_pin c ((now, pin, token) ∷ tries) m =
    attempt_each o current_pin c tries (attempt_pairing o current_pin now c pin token m).0

-- All PINs are wrong, and none comes later than `lockoutMs` after the one before it.
abbrev pub Guesses : PairingOptions → String → ℕ → List Try → Type 0
Guesses o current_pin last [] = Unit
Guesses o current_pin last ((now, pin, token) ∷ tries) =
    (now ≤ last + o.lockout_ms)
    × (validate_pin current_pin pin ≡ false)
    × Guesses o current_pin now tries

abbrev pub last_time : ℕ → List Try → ℕ
last_time last [] = last
last_time last ((now, pin, token) ∷ tries) = last_time now tries

charge_early :
    (o : PairingOptions) (now n : ℕ)
    → n + 1 < o.max_attempts
    → charge o now n ≡ record { failures = n + 1; last_failure_at = now; locked_until = 0 }
charge_early o now n early = let e : leb o.max_attempts (n + 1) ≡ false = ground arith in rw e refl

charge_last :
    (o : PairingOptions) (now n : ℕ)
    → n + 1 ≡ o.max_attempts
    → charge o now n ≡ record {
      failures = o.max_attempts;
      last_failure_at = now;
      locked_until = now + o.lockout_ms;
    }
charge_last o now n full =
    let e : leb o.max_attempts (n + 1) ≡ true = ground arith in rw e (rw full refl)

early-live :
    (o : PairingOptions) (n last now : ℕ)
    → now ≤ last + o.lockout_ms
    → let r : Option AttemptRecord =
        some (record { failures = n; last_failure_at = last; locked_until = 0 }) in
      live_record o now r ≡ r
early-live o n last now near =
    let e : ltb (last + o.lockout_ms) now ≡ false = ground arith in rw e refl

attempt_each-charged :
    (o : PairingOptions) (current_pin c : String) (now : ℕ) (pin : Option String) (token : String)
    (tries : List Try) (n : ℕ) (m : Map AttemptRecord)
    → live_record o now (get c m) ≡ get c m
    → lock_state now (get c m) ≡ none
    → failures_of (get c m) ≡ n
    → n + suc (length tries) ≡ o.max_attempts
    → validate_pin current_pin pin ≡ false
    → Guesses o current_pin now tries
    → let last = last_time now tries in
      get c (attempt_each o current_pin c ((now, pin, token) ∷ tries) m)
      ≡ some (record {
        failures = o.max_attempts;
        last_failure_at = last;
        locked_until = last + o.lockout_ms;
      })
unfolding attempt_each
attempt_each-charged o current_pin c now pin token [] n m live free count full wrong guesses =
    attempt_pairing_wrong o current_pin now c pin token m live free wrong
    ∙ ap (λ k. some (charge o now k)) count
    ∙ ap some (charge_last o now n (omega (arith, full)))
attempt_each-charged o current_pin c now pin token ((now', pin', token') ∷ tries) n m live free
      count full wrong (near, wrong', guesses) =
    let after =
      attempt_pairing_wrong o current_pin now c pin token m live free wrong
      ∙ ap (λ k. some (charge o now k)) count
      ∙ ap some (charge_early o now n (omega (arith, full))) in
    attempt_each-charged o current_pin c now' pin' token' tries (n + 1)
      (attempt_pairing o current_pin now c pin token m).0
      (rw after (early-live o (n + 1) now now' near)) (rw after refl) (rw after refl)
      (omega (arith, full)) wrong' guesses

-- A client without a record makes `maxAttempts` attempts in a row with wrong PINs, none later than
-- `lockoutMs`, which is positive, after the one before. Until `lockoutMs` after the last of them, the
-- right PIN is refused with the time that is left; from that moment on it pairs.
pub attempt_each-locks :
    (o : PairingOptions) (current_pin c : String) (now : ℕ) (pin : Option String) (token : String)
    (tries : List Try) (m : Map AttemptRecord) (later : ℕ) (good : Option String) (fresh : String)
    → get c m ≡ none
    → 0 < o.lockout_ms
    → suc (length tries) ≡ o.max_attempts
    → validate_pin current_pin pin ≡ false
    → Guesses o current_pin now tries
    → validate_pin current_pin good ≡ true
    → let tried = attempt_each o current_pin c ((now, pin, token) ∷ tries) m in
      let free_at = last_time now tries + o.lockout_ms in
      (attempt_pairing o current_pin later c good fresh tried).1
      ≡ (if ltb later free_at then locked (free_at - later) else paired fresh)
attempt_each-locks o current_pin c now pin token tries m later good fresh new lasts full wrong
      guesses right =
    let free_at : ℕ = last_time now tries + o.lockout_ms in
    let tried : Map AttemptRecord = attempt_each o current_pin c ((now, pin, token) ∷ tries) m in
    let held =
      attempt_each-charged o current_pin c now pin token tries 0 m (rw new refl) (rw new refl)
        (rw new refl) (omega (arith, full)) wrong guesses in
    let locks : ltb 0 free_at ≡ true = ground arith in
    elim (Bool-cases (ltb later free_at)) [
      | inl early ↦
          let waits : leb free_at later ≡ false = ground arith in
          let shut : (free_at == 0) ≡ false = ground arith in
          rw early (
            attempt_pairing_locked o current_pin later c good fresh tried (free_at - later)
              (rw held (rw (locks, waits) refl)) (rw held (rw shut refl)))
      | inr late ↦
          let over : leb free_at later ≡ true = ground arith in
          rw late (
            attempt_pairing_right o current_pin later c good fresh tried
              (rw held (rw (locks, over) refl)) right)
    ]

doubled :
    (o : PairingOptions) (n : ℕ)
    → min (o.base_delay_ms * 2 ^ suc n) o.max_delay_ms
      ≡ min (2 * min (o.base_delay_ms * 2 ^ n) o.max_delay_ms) o.max_delay_ms
doubled o n = simp pow-suc (omega arith)

grown :
    (o : PairingOptions) (n : ℕ)
    → min (o.base_delay_ms * 2 ^ n) o.max_delay_ms
      ≤ min (o.base_delay_ms * 2 ^ suc n) o.max_delay_ms
grown o n = simp pow-suc (omega arith)

first_delay : (o : PairingOptions) → delay_for_failures o 1 ≡ min o.base_delay_ms o.max_delay_ms
unfolding delay_for_failures
first_delay o = ap (λ d. min d o.max_delay_ms) (omega arith)

-- An attempt waits not at all after no failure, `baseDelayMs` after one, and at most `maxDelayMs`
-- after any number; each failure more makes the wait no shorter, and doubles it until it reaches
-- that ceiling.
pub delay_for_failures_bounds :
    (o : PairingOptions) (n : ℕ)
    → (delay_for_failures o 0 ≡ 0)
      × (delay_for_failures o 1 ≡ min o.base_delay_ms o.max_delay_ms)
      × (delay_for_failures o n ≤ o.max_delay_ms)
      × (delay_for_failures o n ≤ delay_for_failures o (suc n))
      × (delay_for_failures o (suc (suc n)) ≡ min (2 * delay_for_failures o (suc n)) o.max_delay_ms)
unfolding delay_for_failures
delay_for_failures_bounds o zero = (refl, first_delay o, omega arith, omega arith, doubled o 0)
delay_for_failures_bounds o (suc n) =
    (refl, first_delay o, omega arith, grown o n, doubled o (suc n))
