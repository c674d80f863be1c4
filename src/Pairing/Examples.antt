-- ===== src/Pairing/Examples.antt =====
-- Attempts and tokens at concrete inputs.
use asterim.Prelude.{
  ℕ, zero, suc, ap, ◌+◌, ◌*◌, ◌≤◌, min, get, put, delete, str_eq, String, false, none, some, true,
  List, [], ◌∷◌, ◌≡◌, ◌↔◌, ◌-◌, if◌then◌else◌, refl, inl, arith, ltb, not,
}
use asterim.Pairing.{
  default_options, AttemptRecord, locked, paired, attempt_pairing, begin_attempt, finish_attempt,
  delay_for_failures, validate_pin, Ticket,
}
use asterim.Pairing.Budget.{
  Event, begins, finishes, comparisons, comparisons-le, next_attempts, let_through,
}
use asterim.Pairing.Lockout.{Try, attempt_each, attempt_each-locks, delay_for_failures_bounds}
use asterim.Pairing.Tokens.{
  TokenFormat, IsFormat, validate_token, generate_token, validate-generate, validate_token_sound,
  IsCurrent, thirty_days_ms, split_dot, NoDot,
}

abbrev guess : Ticket
guess = record { client_id = "phone"; next_failures = 1; locked_out = false; delay = 0 }

-- Six attempts of one client, begun before any of them ends.
abbrev burst : List Event
burst =
    begins 10 "phone"
    ∷ begins 10 "phone"
    ∷ begins 11 "laptop"
    ∷ begins 11 "phone"
    ∷ finishes (some "000000") "t" guess
    ∷ begins 12 "phone"
    ∷ begins 12 "phone"
    ∷ begins 12 "phone"
    ∷ []

burst-comparisons : comparisons default_options "123456" "phone" burst [] ≡ 5
unfolding next_attempts let_through begin_attempt finish_attempt get put delete str_eq
burst-comparisons = refl

comparisons-le_example : comparisons default_options "123456" "phone" burst [] ≤ 5
unfolding get validate_pin str_eq
comparisons-le_example =
    comparisons-le default_options "123456" "phone" 10 burst [] (omega arith)
      (
        omega arith,
        (
          omega arith,
          (omega arith, (omega arith, (inl refl, (omega arith, (omega arith, (omega arith, tt)))))),
        ),
      )
      refl

-- Four more guesses after a first one at 10.
abbrev guesses : List Try
guesses =
    (20, some "000001", "t") ∷ (30, none, "t") ∷ (40, some "", "t") ∷ (50, some "000004", "t") ∷ []

attempt_each-locks_example :
    let tried =
      attempt_each default_options "123456" "phone" ((10, some "000000", "t") ∷ guesses) [] in
    (attempt_pairing default_options "123456" 60 "phone" (some "123456") "t" tried).1
    ≡ (if ltb 60 900_050 then locked (900_050 - 60) else paired "t")
unfolding get validate_pin str_eq
attempt_each-locks_example =
    attempt_each-locks default_options "123456" "phone" 10 (some "000000") "t" guesses [] 60
      (some "123456") "t" refl (omega arith) refl refl
      (omega arith, refl, (omega arith, refl, (omega arith, refl, (omega arith, refl, tt)))) refl

abbrev locked_record : AttemptRecord
locked_record = record { failures = 5; last_failure_at = 30; locked_until = 900_030 }

attempt_pairing_refused :
    let a =
      attempt_pairing default_options "123456" 40 "phone"
        (some "123456")
        "t"
        (("phone", locked_record) ∷ []) in
    (a.1 ≡ locked 899_990) × (get "phone" a.0 ≡ some locked_record)
unfolding get str_eq attempt_pairing
attempt_pairing_refused = (refl, refl)

delay_for_failures_bounds_example :
    (delay_for_failures default_options 0 ≡ 0)
    × (delay_for_failures default_options 1 ≡ min 500 8000)
    × (delay_for_failures default_options 4 ≤ 8000)
    × (delay_for_failures default_options 4 ≤ delay_for_failures default_options 5)
    × (delay_for_failures default_options 6 ≡ min (2 * delay_for_failures default_options 5) 8000)
delay_for_failures_bounds_example = delay_for_failures_bounds default_options 4

-- A format that writes a time in unary, and signs every payload alike.
ticks : ℕ → String
ticks zero = String.[]
ticks (suc n) = String.◌∷◌ "1" (ticks n)

count_ticks : String → ℕ
count_ticks String.[] = 0
count_ticks (String.◌∷◌ c s) = suc (count_ticks s)

ticks-NoDot : (n : ℕ) → NoDot (ticks n)
unfolding ticks
ticks-NoDot zero = tt
ticks-NoDot (suc n) = (refl, ticks-NoDot n)

count_ticks-ticks : (n : ℕ) → count_ticks (ticks n) ≡ n
unfolding ticks count_ticks
count_ticks-ticks zero = refl
count_ticks-ticks (suc n) = ap suc (count_ticks-ticks n)

abbrev toy_format : TokenFormat
toy_format = record {
  encode = λ now nonce. ticks now;
  decode = λ payload. some (some (count_ticks payload));
  sign = λ payload. "s";
}

toy-IsFormat : IsFormat toy_format
toy-IsFormat = record {
  encode_no_dot = λ now nonce. ticks-NoDot now;
  sign_no_dot = λ payload. (refl, tt);
  decode-encode = λ now nonce. ap (λ t. some (some t)) (count_ticks-ticks now);
}

validate-generate_example :
    validate_token toy_format 9 (generate_token toy_format 7 "n") ≡ not (ltb (7 + thirty_days_ms) 9)
validate-generate_example = validate-generate toy_format 7 9 "n" toy-IsFormat

validate_token_sound_example : (validate_token toy_format 8 "11.s" ≡ true) ↔ (
    (payload : String) × (split_dot "11.s" ≡ payload ∷ toy_format.sign payload ∷ [])
    × IsCurrent 8 (toy_format.decode payload))
validate_token_sound_example = validate_token_sound toy_format 8 "11.s"

-- A signed payload without a time, years later.
abbrev timeless_format : TokenFormat
timeless_format = record toy_format { decode = λ payload. some none }

timeless-accepted : validate_token timeless_format (1000 * thirty_days_ms) "11.s" ≡ true
unfolding validate_token split_dot str_eq
timeless-accepted = refl
