-- ===== src/Relay/Connections.antt =====
-- The cap on the connections of one address.
use asterim.Prelude.{
  ℕ, suc, ◌+◌, ◌-◌, ◌≤◌, ◌≡◌, refl, ap, ◌∙◌, arith, inl, inr, String, Bool, true, false, Option,
  none, some, List, [], ◌∷◌, if◌then◌else◌, ltb, leb, str_eq, str_eq_refl, str_eq_comm,
  str_eq-cases, Bool-cases, Option-cases, get_or, ap-if, Map, get, put, delete, get-put, get-delete,
  IsKeyed, put-IsKeyed, delete-IsKeyed, one, count_values, count-put_new, count-delete,
}
use asterim.Relay.Limiter.{Limiter, allow}
use asterim.Relay.Authorize.{TunnelRegistration, accepted, rejected, Verdict}
use asterim.Relay.Server.{
  RelayConfig, Relay, TunnelRecord, empty_relay, connections_of, connect, within_event_budget,
  answer_registration, register_tunnel, join_found, join_tunnel, forward_message,
  release_connection, disconnect, reap_now,
}
use asterim.Relay.Run.{
  RelayEvent, connects, registers, joins, sends, disconnects, reaps, step, run, NewSocket,
  NewSockets,
}

-- The entries of one address.
abbrev pub sockets_of : String → Relay → ℕ
sockets_of address s = count_values (str_eq address) s.bound

abbrev pub Counted : RelayConfig → Relay → Type 0
Counted c s =
    IsKeyed s.bound
    × ((a : String) → connections_of a s ≡ sockets_of a s)
    × ((a : String) → connections_of a s ≤ c.max_connections_per_ip)

count-put :
    (a b : String) (n : ℕ) (m : Map ℕ)
    → get_or (get a (put b n m)) 0 ≡ (if str_eq b a then n else get_or (get a m) 0)
count-put a b n m =
    ap (λ o. get_or o 0) (get-put a b n m) ∙ ap-if (λ o. get_or o 0) (str_eq b a) _ _

count-delete_own :
    (a b : String) (m : Map ℕ)
    → get_or (get a (delete b m)) 0 ≡ (if str_eq b a then 0 else get_or (get a m) 0)
count-delete_own a b m =
    ap (λ o. get_or o 0) (get-delete a b m) ∙ ap-if (λ o. get_or o 0) (str_eq b a) _ _

or_one : (o : Option ℕ) → get_or o 1 - 1 ≡ get_or o 0 - 1
or_one none = refl
or_one (some n) = refl

count-release :
    (a b : String) (m : Map ℕ)
    → get_or (get a (release_connection b m)) 0
      ≡ (if str_eq b a then get_or (get b m) 0 - 1 else get_or (get a m) 0)
count-release a b m = elim (Bool-cases (ltb 0 (get_or (get b m) 1 - 1))) [
  | inl e ↦ rw (e, count-put a b (get_or (get b m) 1 - 1) m, or_one (get b m)) refl
  | inr e ↦
      let none_left : 0 ≡ get_or (get b m) 0 - 1 = ground (arith, or_one (get b m)) in
      rw (e, count-delete_own a b m)
        (ap (λ n. if str_eq b a then n else get_or (get a m) 0) none_left)
]

data Unmoved (s t : Relay) : Type 0 where
  unmoved : s.bound ≡ t.bound → s.connections_per_ip ≡ t.connections_per_ip → Unmoved s t

Unmoved-Counted : (c : RelayConfig) (s t : Relay) → Unmoved s t → Counted c t → Counted c s
Unmoved-Counted c s t (unmoved b n) (keyed, same, small) =
    (rw b keyed, λ a. rw (b, n) (same a), λ a. rw n (small a))

module _ (sign : String → ℕ → String → String) (c : RelayConfig) where
  budget-Unmoved :
      (now : ℕ) (id address : String) (s : Relay)
      → Unmoved (within_event_budget c now id address s).0 s
  unfolding within_event_budget
  budget-Unmoved now id address s =
      let l : Limiter = record { limit = c.max_events_per_minute; window_ms = 60000 } in
      elim (Bool-cases (allow l now address s.hits).1) [
        | inl e ↦ rw e (unmoved refl refl)
        | inr e ↦ rw e (unmoved refl refl)
      ]

  answer-Unmoved :
      (id : String) (now : ℕ) (v : Verdict) (s t : Relay)
      → Unmoved s t
      → Unmoved (answer_registration id now v s) t
  answer-Unmoved id now (accepted tunnel_id) s t (unmoved b n) = unmoved b n
  answer-Unmoved id now (rejected code) s t (unmoved b n) = unmoved b n

  join-Unmoved :
      (now : ℕ) (id tunnel_id : String) (o : Option TunnelRecord) (s t : Relay)
      → Unmoved s t
      → Unmoved (join_found now id tunnel_id o s) t
  join-Unmoved now id tunnel_id none s t (unmoved b n) = unmoved b n
  join-Unmoved now id tunnel_id (some r) s t (unmoved b n) = unmoved b n

  register_tunnel-Unmoved :
      (now : ℕ) (r : TunnelRegistration) (id address : String) (s : Relay)
      → Unmoved (register_tunnel sign c now r id address s) s
  unfolding register_tunnel
  register_tunnel-Unmoved now r id address s =
      let next : Relay = (within_event_budget c now id address s).0 in
      let kept : Unmoved next s = budget-Unmoved now id address s in
      elim (Bool-cases (within_event_budget c now id address s).1) [
        | inl e ↦ rw e (answer-Unmoved id now _ next s kept)
        | inr e ↦ rw e kept
      ]

  join_tunnel-Unmoved :
      (now : ℕ) (tunnel_id id address : String) (s : Relay)
      → Unmoved (join_tunnel c now tunnel_id id address s) s
  unfolding join_tunnel
  join_tunnel-Unmoved now tunnel_id id address s =
      let next : Relay = (within_event_budget c now id address s).0 in
      let kept : Unmoved next s = budget-Unmoved now id address s in
      elim (Bool-cases (within_event_budget c now id address s).1) [
        | inl e ↦ rw e (join-Unmoved now id tunnel_id (get tunnel_id next.tunnels) next s kept)
        | inr e ↦ rw e kept
      ]

  forward_message-Unmoved :
      (now : ℕ) (in_room : Bool) (tunnel_id payload id : String) (s : Relay)
      → Unmoved (forward_message now in_room tunnel_id payload id s) s
  unfolding forward_message
  forward_message-Unmoved now true tunnel_id payload id s = unmoved refl refl
  forward_message-Unmoved now false tunnel_id payload id s = unmoved refl refl

  reap_now-Unmoved :
      (now : ℕ) (connected : String → Bool) (s : Relay) → Unmoved (reap_now c now connected s).0 s
  unfolding reap_now
  reap_now-Unmoved now connected s = unmoved refl refl

  connect-Counted :
      (id address : String) (s : Relay)
      → get id s.bound ≡ none
      → Counted c s
      → Counted c (connect c id address s)
  unfolding connect
  connect-Counted id address s new (keyed, same, small) =
      elim (Bool-cases (leb c.max_connections_per_ip (connections_of address s))) [
        | inl full ↦ rw full (keyed, same, small)
        | inr room ↦ rw room (
          put-IsKeyed id address s.bound keyed,
          λ a.
              rw
                (
                  count-put a address (suc (connections_of address s)) s.connections_per_ip,
                  count-put_new (str_eq a) id address s.bound new,
                )
                (counted a (same address) (same a)),
          λ a.
              rw (count-put a address (suc (connections_of address s)) s.connections_per_ip)
                (ground (arith, small a)),
        )
      ]
    where
      counted :
          (a : String)
          → connections_of address s ≡ sockets_of address s
          → connections_of a s ≡ sockets_of a s
          → (if str_eq address a then suc (connections_of address s) else connections_of a s)
            ≡ one (str_eq a address) + sockets_of a s
      counted a at_address at_a = elim (str_eq-cases a address) [
        | inl e ↦ rw (e, str_eq_refl address) (omega arith)
        | inr n ↦ rw (n, str_eq_comm address a, n) (omega (arith, at_a))
      ]

  disconnect-Counted :
      (id address : String) (s : Relay)
      → get id s.bound ≡ some address
      → Counted c s
      → Counted c (disconnect id address s)
  unfolding disconnect
  disconnect-Counted id address s there (keyed, same, small) = (
    delete-IsKeyed id s.bound keyed,
    λ a. counted a (same a) (count-delete (str_eq a) id address s.bound keyed there),
    λ a. rw (count-release a address s.connections_per_ip) (ground (arith, small a, small address)),
  )
    where
      counted :
          (a : String)
          → connections_of a s ≡ sockets_of a s
          → sockets_of a s ≡ one (str_eq a address) + count_values (str_eq a) (delete id s.bound)
          → get_or (get a (release_connection address s.connections_per_ip)) 0
            ≡ count_values (str_eq a) (delete id s.bound)
      counted a at_a less = elim (str_eq-cases a address) [
        | inl e ↦
            rw (count-release a address s.connections_per_ip, e, str_eq_refl address)
              (omega (arith, rw (e, str_eq_refl address) at less, rw e at at_a))
        | inr n ↦
            rw (count-release a address s.connections_per_ip, str_eq_comm address a, n)
              (omega (arith, at_a, rw n at less))
      ]

  step-Counted :
      (e : RelayEvent) (s : Relay) → NewSocket e s → Counted c s → Counted c (step sign c e s)
  unfolding step
  step-Counted (connects id address) s new h = connect-Counted id address s new h
  step-Counted (registers now id r) s new h = elim (Option-cases (get id s.bound)) [
    | inl e ↦ rw e h
    | inr (address, e) ↦ rw e (Unmoved-Counted c _ s (register_tunnel-Unmoved now r id address s) h)
  ]
  step-Counted (joins now id tunnel_id) s new h = elim (Option-cases (get id s.bound)) [
    | inl e ↦ rw e h
    | inr (address, e) ↦
        rw e (Unmoved-Counted c _ s (join_tunnel-Unmoved now tunnel_id id address s) h)
  ]
  step-Counted (sends now id in_room tunnel_id payload) s new h =
      elim (Option-cases (get id s.bound)) [
        | inl e ↦ rw e h
        | inr (address, e) ↦
            rw e
              (Unmoved-Counted c _ s (forward_message-Unmoved now in_room tunnel_id payload id s) h)
      ]
  step-Counted (disconnects id) s new h = elim (Option-cases (get id s.bound)) [
    | inl e ↦ rw e h
    | inr (address, e) ↦ rw e (disconnect-Counted id address s e h)
  ]
  step-Counted (reaps now connected) s new h =
      Unmoved-Counted c _ s (reap_now-Unmoved now connected s) h

  run-Counted :
      (es : List RelayEvent) (s : Relay)
      → NewSockets sign c es s
      → Counted c s
      → Counted c (run sign c es s)
  unfolding run
  run-Counted [] s new h = h
  run-Counted (e ∷ es) s (new, news) h = run-Counted es _ news (step-Counted e s new h)

  -- After any events of a relay that starts empty, where each connection comes with an id that no
  -- open socket has, the count kept for an address is the number of its sockets that have handlers,
  -- and that is at most `maxConnectionsPerIp`.
  pub connections-le :
      (es : List RelayEvent)
      → NewSockets sign c es empty_relay
      → (address : String)
      → (connections_of address (run sign c es empty_relay)
          ≡ sockets_of address (run sign c es empty_relay))
        × (sockets_of address (run sign c es empty_relay) ≤ c.max_connections_per_ip)
  unfolding get
  connections-le es new address =
      let (keyed, same, small) = run-Counted es empty_relay new (tt, λ a. refl, λ a. omega arith) in
      (same address, omega (arith, same address, small address))
