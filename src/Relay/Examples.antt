-- ===== src/Relay/Examples.antt =====
-- The relay at concrete inputs.
use asterim.Prelude.{
  ℕ, ◌+◌, ◌≤◌, ◌<◌, ◌⊎◌, ◌≡◌, refl, arith, String, true, false, includes, some, List, [], ◌∷◌,
  length, get, put, delete, str_eq, trim, text_length, all_chars, map,
}
use asterim.Relay.Limiter.{Limiter, allow, prune, prune_from, allow_hits}
use asterim.Relay.Window.{LimiterEvent, asks, prunes, allowed, in_span_count, allowed-le}
use asterim.Relay.Authorize.{
  TunnelRegistration, accepted, is_tunnel_id, authorize_registration,
  authorize_registration_accepted,
}
use asterim.Relay.Server.{
  RelayConfig, Relay, TunnelRecord, empty_relay, connect, register_tunnel, join_tunnel,
  forward_message, within_event_budget, disconnect, close_each, tunnel_closed, reap_now,
  connections_of,
}
use asterim.Relay.Run.{RelayEvent, connects, registers, joins, sends, disconnects, run, step}
use asterim.Relay.Connections.{sockets_of, connections-le}
use asterim.Relay.Tunnels.{NoRepeats, Fate, disconnect-tunnels, reap_now-tunnels}

abbrev two_a_second : Limiter
two_a_second = record { limit = 2; window_ms = 1000 }

abbrev asked : List LimiterEvent
asked = asks 0 "a" ∷ asks 900 "a" ∷ asks 950 "a" ∷ prunes 990 ∷ asks 1000 "b" ∷ asks 1001 "a" ∷ []

-- The third is over the limit; the last finds the first out of the window.
asked-allowed : allowed two_a_second "a" asked [] ≡ 0 ∷ 900 ∷ 1001 ∷ []
unfolding allow allow_hits prune prune_from get put delete str_eq
asked-allowed = refl

allowed-le_example : in_span_count two_a_second 1001 (allowed two_a_second "a" asked []) ≤ 2
allowed-le_example =
    allowed-le two_a_second "a" 0 1001 asked
      (omega arith, (omega arith, (omega arith, (omega arith, (omega arith, (omega arith, tt))))))

abbrev plain_sign : String → ℕ → String → String
plain_sign tunnel_id timestamp secret = tunnel_id

abbrev signed : TunnelRegistration
signed = record {
  tunnel_id = some " tunnel_1 ";
  signature = some "tunnel_1";
  timestamp = some 1000;
}

abbrev relay_config : RelayConfig
relay_config = record {
  secret = some "key";
  max_connections_per_ip = 2;
  max_events_per_minute = 20;
  timestamp_tolerance_ms = 300;
  idle_tunnel_ms = 5000;
}

signed-accepted :
    authorize_registration plain_sign signed (some "key") 1200 300 ≡ accepted "tunnel_1"
unfolding authorize_registration is_tunnel_id trim all_chars text_length str_eq
signed-accepted = refl

authorize_registration_accepted_example :
    (timestamp : ℕ) × (some 1000 ≡ some timestamp)
    × (some "tunnel_1" ≡ some (plain_sign "tunnel_1" timestamp "key"))
    × (1200 ≤ timestamp + 300)
    × (timestamp ≤ 1200 + 300)
    × (is_tunnel_id "tunnel_1" ≡ true)
authorize_registration_accepted_example =
    authorize_registration_accepted plain_sign signed "key" 1200 300 "tunnel_1" refl signed-accepted

abbrev arrivals : List RelayEvent
arrivals =
    connects "s1" "home"
    ∷ connects "s2" "home"
    ∷ connects "s3" "home"
    ∷ registers 1200 "s1" signed
    ∷ joins 1300 "s2" "tunnel_1"
    ∷ sends 1400 "s2" true "tunnel_1" "sealed"
    ∷ disconnects "s1"
    ∷ connects "s4" "home"
    ∷ []

-- The third socket is refused, and its place is taken after the first has left.
arrivals-open :
    map (λ e. e.0) (run plain_sign relay_config arrivals empty_relay).bound ≡ "s2" ∷ "s4" ∷ []
unfolding run step connect register_tunnel join_tunnel forward_message within_event_budget allow
    allow_hits authorize_registration is_tunnel_id trim all_chars text_length disconnect close_each
    get put delete str_eq
arrivals-open = refl

connections-le_example :
    (connections_of "home" (run plain_sign relay_config arrivals empty_relay)
      ≡ sockets_of "home" (run plain_sign relay_config arrivals empty_relay))
    × (sockets_of "home" (run plain_sign relay_config arrivals empty_relay) ≤ 2)
unfolding run step connect register_tunnel join_tunnel forward_message within_event_budget allow
    allow_hits authorize_registration is_tunnel_id trim all_chars text_length disconnect close_each
    get put delete str_eq
connections-le_example =
    connections-le plain_sign relay_config arrivals
      (refl, (refl, (refl, (tt, (tt, (tt, (tt, (refl, tt)))))))) "home"

abbrev tunnel_of : String → ℕ → TunnelRecord
tunnel_of id active = record { host_socket_id = id; created_at = 0; last_activity_at = active }

abbrev three_tunnels : Relay
three_tunnels = record empty_relay {
  tunnels =
      ("t1", tunnel_of "s1" 10) ∷ ("t2", tunnel_of "s2" 20) ∷ ("t3", tunnel_of "s1" 9000) ∷ [];
}

disconnect-tunnels_example :
    (gone : List String) × ((disconnect "s1" "home" three_tunnels).log ≡ map tunnel_closed gone)
    × NoRepeats gone
    × ((k : String)
        → Fate
            (λ t. t.host_socket_id ≡ "s1")
            (get k three_tunnels.tunnels)
            (get k (disconnect "s1" "home" three_tunnels).tunnels)
            (includes k gone))
unfolding get str_eq
disconnect-tunnels_example = disconnect-tunnels "s1" "home" three_tunnels (refl, (refl, (refl, tt)))

-- Two have lost their host, and the one whose host is there has been idle for too long.
three_tunnels-reaped : (reap_now relay_config 9000 (str_eq "s2") three_tunnels).1 ≡ 3
unfolding reap_now close_each str_eq
three_tunnels-reaped = refl

reap_now-tunnels_example :
    let after = reap_now relay_config 9000 (str_eq "s2") three_tunnels in
    (gone : List String) × (after.0.log ≡ map tunnel_closed gone)
    × NoRepeats gone
    × (after.1 ≡ length gone)
    × ((k : String)
        → Fate
            (λ t.
              (str_eq "s2" t.host_socket_id ≡ false)
              ⊎ (t.last_activity_at + relay_config.idle_tunnel_ms < 9000))
            (get k three_tunnels.tunnels)
            (get k after.0.tunnels)
            (includes k gone))
unfolding get str_eq
reap_now-tunnels_example =
    reap_now-tunnels relay_config 9000 (str_eq "s2") three_tunnels (refl, (refl, (refl, tt)))
