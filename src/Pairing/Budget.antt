-- ===== src/Pairing/Budget.antt =====
-- The budget of PIN comparisons: how many attempts of one client get past the lock, with any number
-- of attempts under way at once.
use asterim.Prelude.{
  ℕ, ◌+◌, ◌-◌, ◌≤◌, ◌<◌, String, false, Option, none, some, List, [], ◌∷◌, ◌≡◌, ◌≢◌, ◌⊎◌, inl, inr,
  refl, sym, ap, ◌∙◌, subst, arith, if◌then◌else◌, ltb, ◌==◌, str_eq, str_eq_iff, str_eq_refl,
  str_eq_of_ne, str_eq-cases, Bool-cases, Option-cases, length, Map, get, keys, get-put,
  get-put_self, get-delete, All,
}
use asterim.Pairing.{
  PairingOptions, AttemptRecord, Begun, refused, charged, Ticket, is_expired, live_record,
  read_record, prune_keys, prune_if_crowded, lock_state, charge, begin_from, begin_attempt,
  finish_attempt, validate_pin,
}

-- A sweep removes no record that counts.
pub read_record-get :
    (o : PairingOptions) (now : ℕ) (k c : String) (m : Map AttemptRecord)
    → live_record o now (get c m) ≡ get c m
    → get c (read_record o now k m).1 ≡ get c m
unfolding read_record
read_record-get o now k c m live = elim (Option-cases (get k m)) [
  | inl e ↦ rw e refl
  | inr (r, e) ↦ rw e (elim (Bool-cases (is_expired o now r)) [
    | inr fresh ↦ rw fresh refl
    | inl stale ↦
        rw (stale, get-delete c k m)
          (elim (str_eq-cases k c) [
            | inr other ↦ rw other refl
            | inl same ↦
                let found : get c m ≡ some r = ap (λ x. get x m) (sym same) ∙ e in
                let gone : live_record o now (get c m) ≡ none = rw (found, stale) refl in
                rw (same, str_eq_refl c) (sym gone ∙ live)
          ])
  ])
]

prune_keys-get :
    (o : PairingOptions) (now : ℕ) (ks : List String) (c : String) (m : Map AttemptRecord)
    → live_record o now (get c m) ≡ get c m
    → get c (prune_keys o now ks m) ≡ get c m
unfolding prune_keys
prune_keys-get o now [] c m live = refl
prune_keys-get o now (k ∷ ks) c m live =
    let same = read_record-get o now k c m live in
    prune_keys-get o now ks c (read_record o now k m).1
      (subst (λ g. live_record o now g ≡ g) (sym same) live)
    ∙ same

pub prune_if_crowded-get :
    (o : PairingOptions) (now : ℕ) (c : String) (m : Map AttemptRecord)
    → live_record o now (get c m) ≡ get c m
    → get c (prune_if_crowded o now m) ≡ get c m
unfolding prune_if_crowded
prune_if_crowded-get o now c m live = elim (Bool-cases (ltb (length m) 1024)) [
  | inl e ↦ rw e refl
  | inr e ↦ rw e (prune_keys-get o now (keys m) c m live)
]

-- The map that the start of an attempt charges: swept, and without the client's expired record.
abbrev pub swept : PairingOptions → ℕ → String → Map AttemptRecord → Map AttemptRecord
swept o now k m = (read_record o now k (prune_if_crowded o now m)).1

pub swept-get :
    (o : PairingOptions) (now : ℕ) (k c : String) (m : Map AttemptRecord)
    → live_record o now (get c m) ≡ get c m
    → get c (swept o now k m) ≡ get c m
swept-get o now k c m live =
    let same = prune_if_crowded-get o now c m live in
    read_record-get o now k c (prune_if_crowded o now m)
      (subst (λ g. live_record o now g ≡ g) (sym same) live)
    ∙ same

-- The start of an attempt sees the client's own record, where it counts.
pub begin_attempt-from :
    (o : PairingOptions) (now : ℕ) (c : String) (m : Map AttemptRecord)
    → live_record o now (get c m) ≡ get c m
    → begin_attempt o now c m ≡ begin_from o now c (get c m) (swept o now c m)
unfolding begin_attempt read_record
begin_attempt-from o now c m live =
    ap (λ g. begin_from o now c (live_record o now g) (swept o now c m))
      (prune_if_crowded-get o now c m live)
    ∙ ap (λ g. begin_from o now c g (swept o now c m)) live

begin_from_other :
    (o : PairingOptions) (now : ℕ) (k c : String) (live : Option AttemptRecord)
    (m : Map AttemptRecord)
    → k ≢ c
    → get c (begin_from o now k live m).0 ≡ get c m
unfolding begin_from
begin_from_other o now k c live m other = elim (Option-cases (lock_state now live)) [
  | inl e ↦ rw (e, begin_from) (rw (get-put c k _ m, str_eq_of_ne k c other) refl)
  | inr (ms, e) ↦ rw (e, begin_from) refl
]

-- An attempt of another client leaves a record that counts alone.
pub begin_attempt-get :
    (o : PairingOptions) (now : ℕ) (k c : String) (m : Map AttemptRecord)
    → live_record o now (get c m) ≡ get c m
    → k ≢ c
    → get c (begin_attempt o now k m).0 ≡ get c m
unfolding begin_attempt
begin_attempt-get o now k c m live other =
    begin_from_other o now k c (read_record o now k (prune_if_crowded o now m)).0 (swept o now k m)
      other
    ∙ swept-get o now k c m live

-- What happens to the pairing service between two readings of its clock.
pub data Event : Type 0 where
  begins : ℕ → String → Event
  finishes : Option String → String → Ticket → Event

unfoldable pub next_attempts :
    PairingOptions → String → Event → Map AttemptRecord → Map AttemptRecord
next_attempts o current_pin (begins now k) m = (begin_attempt o now k m).0
next_attempts o current_pin (finishes pin token t) m =
    (finish_attempt o current_pin pin token t m).0

abbrev count_charged : Begun → ℕ
count_charged (refused r) = 0
count_charged (charged t) = 1

-- The attempts of client `c` that an event lets through to the comparison of the PIN.
unfoldable pub let_through : PairingOptions → String → Event → Map AttemptRecord → ℕ
let_through o c (begins now k) m =
    if str_eq k c then count_charged (begin_attempt o now k m).1 else 0
let_through o c (finishes pin token t) m = 0

abbrev pub comparisons : PairingOptions → String → String → List Event → Map AttemptRecord → ℕ
comparisons o current_pin c [] m = 0
comparisons o current_pin c (e ∷ es) m =
    let_through o c e m + comparisons o current_pin c es (next_attempts o current_pin e m)

-- Within a window of `lockout_ms` from `start`, in which no attempt of `c` has the right PIN.
abbrev pub Within : PairingOptions → String → String → ℕ → Event → Type 0
Within o current_pin c start (begins now k) = (start ≤ now) × (now < start + o.lockout_ms)
Within o current_pin c start (finishes pin token t) =
    (validate_pin current_pin pin ≡ false) ⊎ (t.client_id ≢ c)

-- A record that was made within the window.
abbrev RecordIn : PairingOptions → ℕ → Option AttemptRecord → Type 0
RecordIn o start none = Unit
RecordIn o start (some r) =
    (start ≤ r.last_failure_at)
    × ((r.locked_until ≡ 0 × r.failures < o.max_attempts) ⊎ (start + o.lockout_ms ≤ r.locked_until))

-- The comparisons that a client still has.
abbrev left : PairingOptions → Option AttemptRecord → ℕ
left o none = o.max_attempts
left o (some r) = if r.locked_until == 0 then o.max_attempts - r.failures else 0

RecordIn-live :
    (o : PairingOptions) (start now : ℕ) (g : Option AttemptRecord)
    → now < start + o.lockout_ms
    → RecordIn o start g
    → live_record o now g ≡ g
RecordIn-live o start now none h r = refl
RecordIn-live o start now (some r) h v = ground arith

-- One attempt of the client, made within the window on the map `m`.
begin_from_own :
    (o : PairingOptions) (start now : ℕ) (c : String) (g : Option AttemptRecord)
    (m : Map AttemptRecord)
    → 1 ≤ o.max_attempts
    → start ≤ now
    → now < start + o.lockout_ms
    → RecordIn o start g
    → get c m ≡ g
    → let r = begin_from o now c g m in
      RecordIn o start (get c r.0) × (count_charged r.1 + left o (get c r.0) ≤ left o g)
unfolding begin_from
begin_from_own o start now c none m some_budget lo hi v e =
    rw (get-put_self c (charge o now 0) m) (ground arith)
begin_from_own o start now c (some r) m some_budget lo hi v e =
    elim (Bool-cases (r.locked_until == 0)) [
      | inl free ↦
          rw (free, begin_from) (rw (get-put_self c (charge o now r.failures) m) (ground arith))
      | inr shut ↦ rw (shut, begin_from) (rw e (v, ground arith))
    ]

-- A failed attempt, or one of another client, changes no record of `c` when it ends.
finish_attempt-get :
    (o : PairingOptions) (current_pin c : String) (pin : Option String) (token : String)
    (t : Ticket) (m : Map AttemptRecord)
    → (validate_pin current_pin pin ≡ false) ⊎ (t.client_id ≢ c)
    → get c (finish_attempt o current_pin pin token t m).0 ≡ get c m
unfolding finish_attempt
finish_attempt-get o current_pin c pin token t m w =
    elim (Bool-cases (validate_pin current_pin pin)) [
      | inr wrong ↦
          rw (wrong, finish_attempt)
            (elim (Bool-cases t.locked_out) [ inl e ↦ rw e refl | inr e ↦ rw e refl ])
      | inl right ↦
          rw (right, finish_attempt)
            (elim w [
              | inl wrong ↦ absurd (cc)
              | inr other ↦ rw (get-delete c t.client_id m, str_eq_of_ne t.client_id c other) refl
            ])
    ]

unpaid :
    (o : PairingOptions) (start : ℕ) (g g' : Option AttemptRecord)
    → g' ≡ g
    → RecordIn o start g
    → RecordIn o start g' × (0 + left o g' ≤ left o g)
unpaid o start g g' e v = rw e (v, omega arith)

-- One event of the window: what it lets through, the budget pays for.
event_budget :
    (o : PairingOptions) (current_pin c : String) (start : ℕ) (e : Event) (m : Map AttemptRecord)
    → 1 ≤ o.max_attempts
    → Within o current_pin c start e
    → RecordIn o start (get c m)
    → RecordIn o start (get c (next_attempts o current_pin e m))
      × (let_through o c e m + left o (get c (next_attempts o current_pin e m)) ≤ left o (get c m))
unfolding next_attempts let_through
event_budget o current_pin c start (begins now k) m some_budget (lo, hi) v =
    let live = RecordIn-live o start now (get c m) hi v in
    elim (str_eq-cases k c) [
      | inl same ↦
          rw (same, str_eq_refl c)
            (subst
              (λ r.
                RecordIn o start (get c r.0)
                × (count_charged r.1 + left o (get c r.0) ≤ left o (get c m)))
              (sym (begin_attempt-from o now c m live))
              (begin_from_own o start now c (get c m) (swept o now c m) some_budget lo hi v
                (swept-get o now c c m live)))
      | inr other ↦ rw other (
          unpaid o start (get c m) _
            (begin_attempt-get o now k c m live (λ e. cc (other, (str_eq_iff k c).1 e))) v)
    ]
event_budget o current_pin c start (finishes pin token t) m some_budget w v =
    unpaid o start (get c m) _ (finish_attempt-get o current_pin c pin token t m w) v

comparisons-le-left :
    (o : PairingOptions) (current_pin c : String) (start : ℕ) (es : List Event)
    (m : Map AttemptRecord)
    → 1 ≤ o.max_attempts
    → All (Within o current_pin c start) es
    → RecordIn o start (get c m)
    → comparisons o current_pin c es m ≤ left o (get c m)
comparisons-le-left o current_pin c start [] m some_budget all v = omega arith
comparisons-le-left o current_pin c start (e ∷ es) m some_budget (w, all) v =
    let (v', paid) = event_budget o current_pin c start e m some_budget w v in
    omega (
      arith,
      paid,
      comparisons-le-left o current_pin c start es (next_attempts o current_pin e m) some_budget all
          v',
    )

-- In any window of `lockoutMs` that starts with no failures recorded for a client, at most
-- `maxAttempts` of its attempts get to the comparison of the PIN while no attempt of its has the
-- right one, however many are under way at once and whatever other clients do meanwhile.
pub comparisons-le :
    (o : PairingOptions) (current_pin c : String) (start : ℕ) (es : List Event)
    (m : Map AttemptRecord)
    → 1 ≤ o.max_attempts
    → All (Within o current_pin c start) es
    → get c m ≡ none
    → comparisons o current_pin c es m ≤ o.max_attempts
comparisons-le o current_pin c start es m some_budget all fresh =
    let whole =
      comparisons-le-left o current_pin c start es m some_budget all
        (subst (RecordIn o start) (sym fresh) tt) in
    subst (λ g. comparisons o current_pin c es m ≤ left o g) fresh whole
