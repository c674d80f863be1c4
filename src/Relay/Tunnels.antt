-- ===== src/Relay/Tunnels.antt =====
-- What becomes of the tunnels of a relay server when sockets leave and when it sweeps.
use asterim.Prelude.{
  ℕ, ◌+◌, ◌<◌, ◌≡◌, ◌⊎◌, refl, sym, ap, ◌∙◌, arith, inl, inr, String, Bool, true, false, Option,
  none, some, List, [], ◌∷◌, ◌++◌, if◌then◌else◌, ltb, length, map, append-nil, append_assoc,
  includes, str_eq, str_eq_iff, str_eq_refl, str_eq_comm, str_eq-cases, Bool-cases, Option-cases,
  Map, get, get-delete, IsKeyed,
}
use asterim.Relay.Server.{
  RelayConfig, Relay, TunnelRecord, tunnel_closed, Closing, close_if, close_each, close_tunnels,
  hosted_by, is_dead, disconnect, reap_now,
}

-- The ids of the entries that pass a test.
passing : (TunnelRecord → Bool) → Map TunnelRecord → List String
passing closes [] = []
passing closes ((k, t) ∷ m) = let rest = passing closes m in if closes t then k ∷ rest else rest

passes : (TunnelRecord → Bool) → Option TunnelRecord → Bool
passes closes none = false
passes closes (some t) = closes t

passing-includes :
    (closes : TunnelRecord → Bool) (k : String) (m : Map TunnelRecord)
    → IsKeyed m
    → includes k (passing closes m) ≡ passes closes (get k m)
unfolding get passing passes
passing-includes closes k [] h = refl
passing-includes closes k ((j, t) ∷ m) (fresh, h) =
    let rest = passing-includes closes k m h in
    elim (str_eq-cases j k) [
      | inl same ↦
          let gone : get k m ≡ none = rw same at fresh in
          elim (Bool-cases (closes t)) [
            | inl e ↦ rw (same, str_eq_refl k, e) (rw (str_eq_refl k) refl)
            | inr e ↦ rw (same, str_eq_refl k, e) (rest ∙ rw gone refl)
          ]
      | inr other ↦ elim (Bool-cases (closes t)) [
        | inl e ↦ rw (other, e) (rw (str_eq_comm k j, other) rest)
        | inr e ↦ rw (other, e) rest
      ]
    ]

-- No text stands twice in a list.
abbrev pub NoRepeats : List String → Type 0
NoRepeats [] = Unit
NoRepeats (k ∷ ks) = (includes k ks ≡ false) × NoRepeats ks

passing-NoRepeats :
    (closes : TunnelRecord → Bool) (m : Map TunnelRecord) → IsKeyed m → NoRepeats (passing closes m)
unfolding passing passes
passing-NoRepeats closes [] h = tt
passing-NoRepeats closes ((j, t) ∷ m) (fresh, h) =
    let rest = passing-NoRepeats closes m h in
    elim (Bool-cases (closes t)) [
      | inl e ↦ rw e (passing-includes closes j m h ∙ ap (passes closes) fresh, rest)
      | inr e ↦ rw e rest
    ]

close_each-step :
    (closes : TunnelRecord → Bool) (j : String) (t : TunnelRecord) (rest : Map TunnelRecord)
    (x : Closing) (b : Bool)
    → closes t ≡ b
    → close_each closes ((j, t) ∷ rest) x ≡ close_each closes rest (close_if b j x)
unfolding close_each
close_each-step closes j t rest x b e = ap (λ c. close_each closes rest (close_if c j x)) e

close_each-get :
    (closes : TunnelRecord → Bool) (k : String) (entries : Map TunnelRecord) (x : Closing)
    → get k (close_each closes entries x).tunnels
      ≡ (if includes k (passing closes entries) then none else get k x.tunnels)
unfolding close_each passing
close_each-get closes k [] x = refl
close_each-get closes k ((j, t) ∷ rest) x = elim (Bool-cases (closes t)) [
  | inr e ↦ rw (e, close_each-step closes j t rest x false e) (close_each-get closes k rest x)
  | inl e ↦
      rw (e, close_each-step closes j t rest x true e)
        (close_each-get closes k rest (close_if true j x)
          ∙ rw (get-delete k j x.tunnels, str_eq_comm j k)
              (elim (Bool-cases (str_eq k j)) [
                | inl same ↦ rw same (elim (Bool-cases (includes k (passing closes rest))) [
                  | inl p ↦ rw p refl
                  | inr p ↦ rw p refl
                ])
                | inr other ↦ rw other refl
              ]))
]

close_each-log :
    (closes : TunnelRecord → Bool) (entries : Map TunnelRecord) (x : Closing)
    → (close_each closes entries x).log ≡ x.log ++ map tunnel_closed (passing closes entries)
unfolding close_each passing
close_each-log closes [] x = sym (append-nil x.log)
close_each-log closes ((j, t) ∷ rest) x = elim (Bool-cases (closes t)) [
  | inr e ↦ rw (e, close_each-step closes j t rest x false e) (close_each-log closes rest x)
  | inl e ↦
      rw (e, close_each-step closes j t rest x true e)
        (close_each-log closes rest (close_if true j x)
          ∙ append_assoc x.log (tunnel_closed j ∷ []) (map tunnel_closed (passing closes rest)))
]

close_each-reaped :
    (closes : TunnelRecord → Bool) (entries : Map TunnelRecord) (x : Closing)
    → (close_each closes entries x).reaped ≡ x.reaped + length (passing closes entries)
unfolding close_each passing
close_each-reaped closes [] x = omega arith
close_each-reaped closes ((j, t) ∷ rest) x = elim (Bool-cases (closes t)) [
  | inr e ↦ rw (e, close_each-step closes j t rest x false e) (close_each-reaped closes rest x)
  | inl e ↦
      rw (e, close_each-step closes j t rest x true e)
        (omega (arith, close_each-reaped closes rest (close_if true j x)))
]

-- What becomes of a tunnel that may be there: `Dies` tells which records are closed, and `told`
-- whether its room hears of it.
abbrev pub Fate :
    (TunnelRecord → Type 0) → Option TunnelRecord → Option TunnelRecord → Bool → Type 0
Fate Dies before after told =
    ((before ≡ none) × (after ≡ none) × (told ≡ false))
    ⊎ ((t : TunnelRecord) × (before ≡ some t)
        × ((Dies t × (after ≡ none) × (told ≡ true))
            ⊎ (¬ (Dies t) × (after ≡ some t) × (told ≡ false))))

close_tunnels-Fate :
    (closes : TunnelRecord → Bool) (Dies : TunnelRecord → Type 0)
    → ((t : TunnelRecord) → ((closes t ≡ true) × Dies t) ⊎ ((closes t ≡ false) × ¬ (Dies t)))
    → (s : Relay) (k : String) → IsKeyed s.tunnels
    → Fate Dies
        (get k s.tunnels)
        (get k (close_tunnels closes s).tunnels)
        (includes k (passing closes s.tunnels))
unfolding passes
close_tunnels-Fate closes Dies decides s k h =
    let at =
      close_each-get closes k s.tunnels (record { tunnels = s.tunnels; log = s.log; reaped = 0 }) in
    let told = passing-includes closes k s.tunnels h in
    elim (Option-cases (get k s.tunnels)) [
      | inl e ↦ let quiet = told ∙ ap (passes closes) e in inl (e, at ∙ rw quiet e, quiet)
      | inr (t, e) ↦ inr (
        t,
        e,
        elim (decides t) [
          | inl (c, dies) ↦
              let heard = told ∙ ap (passes closes) e ∙ c in inl (dies, at ∙ rw heard refl, heard)
          | inr (c, lives) ↦
              let quiet = told ∙ ap (passes closes) e ∙ c in inr (lives, at ∙ rw quiet e, quiet)
        ],
      )
    ]

-- When a socket disconnects, exactly the tunnels whose host it is are closed, however many they are,
-- and the others stay as they were; the rooms of those that went are told `tunnel_closed`, each
-- once, and nothing else is sent.
pub disconnect-tunnels :
    (id address : String) (s : Relay)
    → IsKeyed s.tunnels
    → (gone : List String) × ((disconnect id address s).log ≡ s.log ++ map tunnel_closed gone)
      × NoRepeats gone
      × ((k : String)
          → Fate
              (λ t. t.host_socket_id ≡ id)
              (get k s.tunnels)
              (get k (disconnect id address s).tunnels)
              (includes k gone))
unfolding disconnect
disconnect-tunnels id address s h = (
  passing (hosted_by id) s.tunnels,
  close_each-log (hosted_by id) s.tunnels (record { tunnels = s.tunnels; log = s.log; reaped = 0 }),
  passing-NoRepeats (hosted_by id) s.tunnels h,
  λ k. close_tunnels-Fate (hosted_by id) (λ t. t.host_socket_id ≡ id) decides s k h,
)
  where
    decides :
        (t : TunnelRecord)
        → ((hosted_by id t ≡ true) × (t.host_socket_id ≡ id))
          ⊎ ((hosted_by id t ≡ false) × ¬ (t.host_socket_id ≡ id))
    decides t = elim (Bool-cases (str_eq t.host_socket_id id)) [
      | inl same ↦ inl (same, (str_eq_iff t.host_socket_id id).0 same)
      | inr other ↦ inr (other, λ e. absurd (let hit = (str_eq_iff t.host_socket_id id).1 e in cc))
    ]

-- A sweep closes exactly the tunnels whose host is not connected or which have been idle for longer
-- than `idleTunnelMs`, and leaves the others as they were; the rooms of those that went are told
-- `tunnel_closed`, each once, and it returns how many those are.
pub reap_now-tunnels :
    (c : RelayConfig) (now : ℕ) (connected : String → Bool) (s : Relay)
    → IsKeyed s.tunnels
    → let after = reap_now c now connected s in
      (gone : List String) × (after.0.log ≡ s.log ++ map tunnel_closed gone)
      × NoRepeats gone
      × (after.1 ≡ length gone)
      × ((k : String)
          → Fate
              (λ t.
                (connected t.host_socket_id ≡ false)
                ⊎ (t.last_activity_at + c.idle_tunnel_ms < now))
              (get k s.tunnels)
              (get k after.0.tunnels)
              (includes k gone))
unfolding reap_now
reap_now-tunnels c now connected s h =
    let dead : TunnelRecord → Bool = is_dead c now connected in
    let x : Closing = record { tunnels = s.tunnels; log = s.log; reaped = 0 } in
    (
      passing dead s.tunnels,
      close_each-log dead s.tunnels x,
      passing-NoRepeats dead s.tunnels h,
      omega (arith, close_each-reaped dead s.tunnels x),
      λ k.
          close_tunnels-Fate dead
            (λ t.
              (connected t.host_socket_id ≡ false) ⊎ (t.last_activity_at + c.idle_tunnel_ms < now))
            decides s k h,
    )
  where
    decides :
        (t : TunnelRecord)
        → let Dies =
            (connected t.host_socket_id ≡ false) ⊎ (t.last_activity_at + c.idle_tunnel_ms < now) in
          ((is_dead c now connected t ≡ true) × Dies)
          ⊎ ((is_dead c now connected t ≡ false) × ¬ Dies)
    decides t = elim (Bool-cases (connected t.host_socket_id)) [
      | inr lost ↦ inl (rw lost refl, inl lost)
      | inl there ↦ elim (Bool-cases (ltb (t.last_activity_at + c.idle_tunnel_ms) now)) [
        | inl idle ↦ inl (rw (there, idle) refl, inr (ground arith))
        | inr busy ↦ inr (
          rw (there, busy) refl,
          λ d. elim d [ inl lost ↦ absurd (cc) | inr idle ↦ absurd (ground arith) ],
        )
      ]
    ]
