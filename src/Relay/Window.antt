-- ===== src/Relay/Window.antt =====
-- The guarantee of `SlidingWindowLimiter`: no window holds more hits of one key than the limit.
use asterim.Prelude.{
  ℕ, suc, ◌+◌, ◌≤◌, ◌<◌, ◌≡◌, refl, ap, ◌∙◌, arith, inl, inr, String, Bool, false, ◌&&◌, Option,
  none, some, List, [], ◌∷◌, ◌++◌, if◌then◌else◌, leb, ◌==◌, str_eq, str_eq_refl, str_eq-cases,
  Bool-cases, length, length-keep, length-append, keep, get_or, Map, get, put, delete, get-put,
  get-delete, leb→le, IsKeyed, put-IsKeyed, delete-IsKeyed,
}
use asterim.Relay.Limiter.{Limiter, in_window, allow_hits, allow, prune_entry, prune_from, prune}

pub data LimiterEvent : Type 0 where
  asks : ℕ → String → LimiterEvent
  prunes : ℕ → LimiterEvent

abbrev pub time_of : LimiterEvent → ℕ
time_of (asks now key) = now
time_of (prunes now) = now

abbrev pub after : Limiter → LimiterEvent → Map (List ℕ) → Map (List ℕ)
after l (asks now key) m = (allow l now key m).0
after l (prunes now) m = prune l now m

-- What an event lets through for key `k`, as the list of its time.
abbrev pub let_by : Limiter → String → LimiterEvent → Map (List ℕ) → List ℕ
let_by l k (asks now key) m = if str_eq key k && (allow l now key m).1 then now ∷ [] else []
let_by l k (prunes now) m = []

abbrev pub allowed : Limiter → String → List LimiterEvent → Map (List ℕ) → List ℕ
allowed l k [] m = []
allowed l k (e ∷ es) m = let_by l k e m ++ allowed l k es (after l e m)

-- The clock does not go back.
abbrev pub Rising : ℕ → List LimiterEvent → Type 0
Rising start [] = Unit
Rising start (e ∷ es) = (start ≤ time_of e) × Rising (time_of e) es

-- In the window of `windowMs` that ends at `stop`.
abbrev pub in_span : Limiter → ℕ → ℕ → Bool
in_span l stop t = in_window l stop t && leb t stop

abbrev pub in_span_count : Limiter → ℕ → List ℕ → ℕ
in_span_count l stop ts = length (keep (in_span l stop) ts)

count-append :
    (l : Limiter) (stop : ℕ) (xs ys : List ℕ)
    → in_span_count l stop (xs ++ ys) ≡ in_span_count l stop xs + in_span_count l stop ys
count-append l stop [] ys = omega arith
count-append l stop (x ∷ xs) ys = elim (Bool-cases (in_span l stop x)) [
  | inl e ↦ rw e (omega (arith, count-append l stop xs ys))
  | inr e ↦ rw e (count-append l stop xs ys)
]

-- What an earlier sweep drops does not stand in the window.
count-keep :
    (l : Limiter) (now stop : ℕ) (xs : List ℕ)
    → now ≤ stop
    → in_span_count l stop (keep (in_window l now) xs) ≡ in_span_count l stop xs
count-keep l now stop [] h = refl
count-keep l now stop (x ∷ xs) h = ground (arith, count-keep l now stop xs h)

abbrev hits_of : String → Map (List ℕ) → List ℕ
hits_of k m = get_or (get k m) []

abbrev swept : Limiter → ℕ → Option (List ℕ) → List ℕ → List ℕ
swept l now none hits = hits
swept l now (some times) hits = keep (in_window l now) times

prune_entry_own :
    (l : Limiter) (now : ℕ) (k : String) (times : List ℕ) (m : Map (List ℕ))
    → hits_of k (prune_entry l now (k, times) m) ≡ keep (in_window l now) times
prune_entry_own l now k times m = go (keep (in_window l now) times)
  where
    go :
        (recent : List ℕ)
        → hits_of k (if length recent == 0 then delete k m else put k recent m) ≡ recent
    go [] = ap (λ g. get_or g []) (get-delete k k m) ∙ rw (str_eq_refl k) refl
    go (x ∷ xs) =
        let filled : (suc (length xs) == 0) ≡ false = ground arith in
        rw filled (ap (λ g. get_or g []) (get-put k k (x ∷ xs) m) ∙ rw (str_eq_refl k) refl)

prune_entry_other :
    (l : Limiter) (now : ℕ) (j k : String) (times : List ℕ) (m : Map (List ℕ))
    → str_eq j k ≡ false
    → hits_of k (prune_entry l now (j, times) m) ≡ hits_of k m
prune_entry_other l now j k times m other =
    elim (Bool-cases (length (keep (in_window l now) times) == 0)) [
      | inl e ↦ rw e (ap (λ g. get_or g []) (get-delete k j m) ∙ rw other refl)
      | inr e ↦ rw e (ap (λ g. get_or g []) (get-put k j _ m) ∙ rw other refl)
    ]

prune_from-hits :
    (l : Limiter) (now : ℕ) (k : String) (es m : Map (List ℕ))
    → IsKeyed es
    → hits_of k (prune_from l now es m) ≡ swept l now (get k es) (hits_of k m)
unfolding prune_from get
prune_from-hits l now k [] m h = refl
prune_from-hits l now k ((j, times) ∷ es) m (fresh, h) = elim (str_eq-cases j k) [
  | inl same ↦
      rw (same, str_eq_refl k)
        (prune_from-hits l now k es (prune_entry l now (k, times) m) h
          ∙ rw (rw same at fresh) (prune_entry_own l now k times m))
  | inr other ↦ rw other (
      prune_from-hits l now k es _ h
      ∙ ap (swept l now (get k es)) (prune_entry_other l now j k times m other))
]

prune-hits :
    (l : Limiter) (now : ℕ) (k : String) (m : Map (List ℕ))
    → IsKeyed m
    → hits_of k (prune l now m) ≡ keep (in_window l now) (hits_of k m)
unfolding prune
prune-hits l now k m h = prune_from-hits l now k m m h ∙ go (get k m)
  where
    go : (o : Option (List ℕ)) → swept l now o (get_or o []) ≡ keep (in_window l now) (get_or o [])
    go none = refl
    go (some times) = refl

prune_entry-IsKeyed :
    (l : Limiter) (now : ℕ) (e : String × List ℕ) (m : Map (List ℕ))
    → IsKeyed m
    → IsKeyed (prune_entry l now e m)
prune_entry-IsKeyed l now (key, times) m h =
    elim (Bool-cases (length (keep (in_window l now) times) == 0)) [
      | inl e ↦ rw e (delete-IsKeyed key m h)
      | inr e ↦ rw e (put-IsKeyed key _ m h)
    ]

prune_from-IsKeyed :
    (l : Limiter) (now : ℕ) (es m : Map (List ℕ)) → IsKeyed m → IsKeyed (prune_from l now es m)
unfolding prune_from
prune_from-IsKeyed l now [] m h = h
prune_from-IsKeyed l now (e ∷ es) m h =
    prune_from-IsKeyed l now es _ (prune_entry-IsKeyed l now e m h)

after-IsKeyed :
    (l : Limiter) (e : LimiterEvent) (m : Map (List ℕ)) → IsKeyed m → IsKeyed (after l e m)
unfolding allow prune
after-IsKeyed l (asks now key) m h = put-IsKeyed key _ m h
after-IsKeyed l (prunes now) m h = prune_from-IsKeyed l now m m h

allow-hits :
    (l : Limiter) (now : ℕ) (k key : String) (m : Map (List ℕ))
    → hits_of k (allow l now key m).0
      ≡ (if str_eq key k then (allow_hits l now (hits_of k m)).0 else hits_of k m)
unfolding allow
allow-hits l now k key m = elim (str_eq-cases key k) [
  | inl same ↦
      rw (same, str_eq_refl k)
        (ap (λ g. get_or g []) (get-put k k (allow_hits l now (hits_of k m)).0 m)
          ∙ rw (str_eq_refl k) refl)
  | inr other ↦ rw other (ap (λ g. get_or g []) (get-put k key _ m) ∙ rw other refl)
]

abbrev kept_by : Limiter → ℕ → List ℕ → List ℕ
kept_by l now hits = if (allow_hits l now hits).1 then now ∷ [] else []

allow_hits-count :
    (l : Limiter) (now stop : ℕ) (hits : List ℕ)
    → now ≤ stop
    → length hits ≤ l.limit
    → (length (allow_hits l now hits).0 ≤ l.limit)
      × (in_span_count l stop (allow_hits l now hits).0
          ≡ in_span_count l stop hits + in_span_count l stop (kept_by l now hits))
unfolding allow_hits
allow_hits-count l now stop hits early small =
    let recent = keep (in_window l now) hits in
    elim (Bool-cases (leb l.limit (length recent))) [
      | inl full ↦ rw full (
        omega (arith, length-keep (in_window l now) hits),
        omega (arith, count-keep l now stop hits early),
      )
      | inr room ↦ rw room (
        ground (arith, length-append recent (now ∷ [])),
        omega (arith, count-keep l now stop hits early, count-append l stop recent (now ∷ [])),
      )
    ]

allow-allow_hits :
    (l : Limiter) (now : ℕ) (k : String) (m : Map (List ℕ))
    → (allow l now k m).1 ≡ (allow_hits l now (hits_of k m)).1
unfolding allow
allow-allow_hits l now k m = refl

after-count :
    (l : Limiter) (k : String) (stop : ℕ) (e : LimiterEvent) (m : Map (List ℕ))
    → IsKeyed m
    → time_of e ≤ stop
    → length (hits_of k m) ≤ l.limit
    → (length (hits_of k (after l e m)) ≤ l.limit)
      × (in_span_count l stop (hits_of k (after l e m))
          ≡ in_span_count l stop (hits_of k m) + in_span_count l stop (let_by l k e m))
after-count l k stop (prunes now) m keyed early small = rw (prune-hits l now k m keyed) (
  omega (arith, length-keep (in_window l now) (hits_of k m)),
  omega (arith, count-keep l now stop (hits_of k m) early),
)
after-count l k stop (asks now key) m keyed early small = elim (str_eq-cases key k) [
  | inl same ↦
      rw (same, allow-hits l now k k m, str_eq_refl k, allow-allow_hits l now k m)
        (allow_hits-count l now stop (hits_of k m) early small)
  | inr other ↦ rw (allow-hits l now k key m, other) (small, omega arith)
]

let_by-late :
    (l : Limiter) (k : String) (stop : ℕ) (e : LimiterEvent) (m : Map (List ℕ))
    → stop < time_of e
    → in_span_count l stop (let_by l k e m) ≡ 0
let_by-late l k stop (prunes now) m h = refl
let_by-late l k stop (asks now key) m h =
    elim (Bool-cases (str_eq key k && (allow l now key m).1)) [
      | inl e ↦ rw e (ground arith)
      | inr e ↦ rw e refl
    ]

allowed-late :
    (l : Limiter) (k : String) (start stop : ℕ) (es : List LimiterEvent) (m : Map (List ℕ))
    → stop < start
    → Rising start es
    → in_span_count l stop (allowed l k es m) ≡ 0
allowed-late l k start stop [] m h rising = refl
allowed-late l k start stop (e ∷ es) m h (later, rising) =
    let here : stop < time_of e = omega arith in
    omega (
      arith,
      count-append l stop (let_by l k e m) (allowed l k es (after l e m)),
      let_by-late l k stop e m here,
      allowed-late l k (time_of e) stop es (after l e m) here rising,
    )

allowed-count :
    (l : Limiter) (k : String) (start stop : ℕ) (es : List LimiterEvent) (m : Map (List ℕ))
    → IsKeyed m
    → Rising start es
    → length (hits_of k m) ≤ l.limit
    → in_span_count l stop (hits_of k m) + in_span_count l stop (allowed l k es m) ≤ l.limit
allowed-count l k start stop [] m keyed rising small =
    omega (arith, length-keep (in_span l stop) (hits_of k m))
allowed-count l k start stop (e ∷ es) m keyed (later, rising) small =
    elim (Bool-cases (leb (time_of e) stop)) [
      | inl early ↦
          let (small2, same) = after-count l k stop e m keyed (leb→le _ _ early) small in
          omega (
            arith,
            same,
            count-append l stop (let_by l k e m) (allowed l k es (after l e m)),
            allowed-count l k (time_of e) stop es (after l e m) (after-IsKeyed l e m keyed) rising
                small2,
          )
      | inr late ↦
          let here : stop < time_of e = ground arith in
          omega (
            arith,
            length-keep (in_span l stop) (hits_of k m),
            allowed-late l k (time_of e) stop (e ∷ es) m here (omega arith, rising),
          )
    ]

-- However the hits of one address are spread over checks and sweeps, on a clock that does not go
-- back, and whatever other addresses do, no window of `windowMs` holds more hits that `allow`
-- let through than the limit.
pub allowed-le :
    (l : Limiter) (k : String) (start stop : ℕ) (es : List LimiterEvent)
    → Rising start es
    → in_span_count l stop (allowed l k es []) ≤ l.limit
unfolding get
allowed-le l k start stop es rising =
    omega (arith, allowed-count l k start stop es [] tt rising (omega arith))
