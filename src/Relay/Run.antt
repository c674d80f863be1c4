-- ===== src/Relay/Run.antt =====
-- The events of the relay server: a connection, the messages of a socket that has handlers, its
-- disconnection, and the sweep.
use asterim.Prelude.{ℕ, String, Bool, Option, none, some, List, [], ◌∷◌, ◌≡◌, get}
use asterim.Relay.Authorize.{TunnelRegistration}
use asterim.Relay.Server.{
  RelayConfig, Relay, connect, register_tunnel, join_tunnel, forward_message, disconnect, reap_now,
}

pub data RelayEvent : Type 0 where
  -- The socket and its address.
  connects : String → String → RelayEvent
  -- The time, the socket and the registration.
  registers : ℕ → String → TunnelRegistration → RelayEvent
  -- The time, the socket and the tunnel.
  joins : ℕ → String → String → RelayEvent
  -- The time, the socket, whether it is in the room, the tunnel and the payload.
  sends : ℕ → String → Bool → String → String → RelayEvent
  disconnects : String → RelayEvent
  -- The time, and which sockets are connected.
  reaps : ℕ → (String → Bool) → RelayEvent

-- A socket without handlers takes no part.
abbrev pub on_bound : Option String → (String → Relay) → Relay → Relay
on_bound none handler s = s
on_bound (some address) handler s = handler address

module _ (sign : String → ℕ → String → String) (c : RelayConfig) where
  unfoldable pub step : RelayEvent → Relay → Relay
  step (connects id address) s = connect c id address s
  step (registers now id r) s =
      on_bound (get id s.bound) (λ address. register_tunnel sign c now r id address s) s
  step (joins now id tunnel_id) s =
      on_bound (get id s.bound) (λ address. join_tunnel c now tunnel_id id address s) s
  step (sends now id in_room tunnel_id payload) s =
      on_bound (get id s.bound) (λ address. forward_message now in_room tunnel_id payload id s) s
  step (disconnects id) s = on_bound (get id s.bound) (λ address. disconnect id address s) s
  step (reaps now connected) s = (reap_now c now connected s).0

  unfoldable pub run : List RelayEvent → Relay → Relay
  run [] s = s
  run (e ∷ es) s = run es (step e s)

-- socket.io gives a new connection an id that no socket has.
abbrev pub NewSocket : RelayEvent → Relay → Type 0
NewSocket (connects id address) s = get id s.bound ≡ none
NewSocket _ s = Unit

abbrev pub NewSockets :
    (String → ℕ → String → String) → RelayConfig → List RelayEvent → Relay → Type 0
NewSockets sign c [] s = Unit
NewSockets sign c (e ∷ es) s = NewSocket e s × NewSockets sign c es (step sign c e s)
