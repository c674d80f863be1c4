-- ===== src/Relay/Server.antt =====
-- The relay server, `createRelayServer` of apps/relay/src/relayServer.ts: the tunnels, the
-- connections of each address and the handlers of a socket. What socket.io answers is an argument:
-- whether a socket is in a room, whether a socket is connected. What the handlers ask of socket.io
-- is logged as an `Effect`. Each handler keeps the address of its socket in a closure; `bound` holds
-- it for the sockets that have handlers. A handler
-- reads the clock once. The loops that close tunnels take the entries in order, as deletion from a
-- `Map` while it is iterated does.
use asterim.Prelude.{
  ℕ, suc, ◌+◌, ◌-◌, String, Bool, true, false, not, ◌||◌, Option, none, some, List, [], ◌∷◌, ◌++◌,
  if◌then◌else◌, ltb, leb, str_eq, get_or, Map, get, put, delete,
}
use asterim.Relay.Limiter.{allow, prune}
use asterim.Relay.Authorize.{
  TunnelRegistration, ErrorCode, auth_failed, rate_limited, tunnel_not_found, not_in_tunnel,
  Verdict, accepted, rejected, authorize_registration,
}

pub record RelayConfig : Type 0 where
  pub secret : Option String
  pub max_connections_per_ip : ℕ
  pub max_events_per_minute : ℕ
  pub timestamp_tolerance_ms : ℕ
  pub idle_tunnel_ms : ℕ

pub record TunnelRecord : Type 0 where
  pub host_socket_id : String
  pub created_at : ℕ
  pub last_activity_at : ℕ

pub record Counters : Type 0 where
  pub total_connections : ℕ
  pub total_tunnels_created : ℕ
  pub messages_forwarded : ℕ
  pub auth_rejections : ℕ
  pub rate_limit_rejections : ℕ
  pub tunnels_reaped : ℕ

-- What is sent to a socket or a room, and the calls of `join` and `disconnect`. A room is named by
-- the id of its tunnel.
pub data Effect : Type 0 where
  tunnel_error : String → ErrorCode → Effect
  tunnel_registered : String → Effect
  -- The host that is told, and the client that joined.
  client_joined : String → String → Effect
  -- The sender, the room and the payload.
  tunnel_message : String → String → String → Effect
  tunnel_closed : String → Effect
  joined : String → String → Effect
  dropped : String → Effect

pub record Relay : Type 0 where
  pub tunnels : Map TunnelRecord
  pub connections_per_ip : Map ℕ
  pub hits : Map (List ℕ)
  pub counters : Counters
  pub bound : Map String
  pub log : List Effect

abbrev pub no_counters : Counters
no_counters = record {
  total_connections = 0;
  total_tunnels_created = 0;
  messages_forwarded = 0;
  auth_rejections = 0;
  rate_limit_rejections = 0;
  tunnels_reaped = 0;
}

abbrev pub empty_relay : Relay
empty_relay = record {
  tunnels = [];
  connections_per_ip = [];
  hits = [];
  counters = no_counters;
  bound = [];
  log = [];
}

abbrev pub emit : List Effect → Relay → Relay
emit es s = record s { log = s.log ++ es }

abbrev count_rejection : Counters → Counters
count_rejection k = record k { rate_limit_rejections = suc k.rate_limit_rejections }

abbrev count_connection : Counters → Counters
count_connection k = record k { total_connections = suc k.total_connections }

abbrev count_message : Counters → Counters
count_message k = record k { messages_forwarded = suc k.messages_forwarded }

abbrev count_reaped : ℕ → Counters → Counters
count_reaped n k = record k { tunnels_reaped = k.tunnels_reaped + n }

abbrev pub count_rate_limited : Relay → Relay
count_rate_limited s = record s { counters = count_rejection s.counters }

abbrev pub connections_of : String → Relay → ℕ
connections_of address s = get_or (get address s.connections_per_ip) 0

-- `active + 1` for the address, and the handlers.
abbrev pub admit : String → String → Relay → Relay
admit id address s = record s {
  connections_per_ip = put address (suc (connections_of address s)) s.connections_per_ip;
  counters = count_connection s.counters;
  bound = put id address s.bound;
}

-- The socket of a refused connection is told why, and disconnected on the next tick.
unfoldable pub connect : RelayConfig → String → String → Relay → Relay
connect c id address s =
    if leb c.max_connections_per_ip (connections_of address s)
    then emit (tunnel_error id rate_limited ∷ dropped id ∷ []) (count_rate_limited s)
    else admit id address s

-- `withinEventBudget`.
unfoldable pub within_event_budget : RelayConfig → ℕ → String → String → Relay → Relay × Bool
within_event_budget c now id address s =
    let (hits, ok) =
      allow (record { limit = c.max_events_per_minute; window_ms = 60000 }) now address s.hits in
    let next : Relay = record s { hits = hits } in
    if ok
    then (next, true)
    else (emit (tunnel_error id rate_limited ∷ []) (count_rate_limited next), false)

abbrev pub created_before : Option TunnelRecord → ℕ → ℕ
created_before none now = now
created_before (some t) now = t.created_at

abbrev pub count_created : Option TunnelRecord → Counters → Counters
count_created none k = record k { total_tunnels_created = suc k.total_tunnels_created }
count_created (some t) k = k

abbrev pub open_tunnel : String → ℕ → String → Relay → Relay
open_tunnel id now tunnel_id s =
    let existing = get tunnel_id s.tunnels in
    let fresh : TunnelRecord = record {
      host_socket_id = id;
      created_at = created_before existing now;
      last_activity_at = now;
    } in
    emit (joined id tunnel_id ∷ tunnel_registered id ∷ []) (record s {
      tunnels = put tunnel_id fresh s.tunnels;
      counters = count_created existing s.counters;
    })

abbrev pub count_auth : ErrorCode → Counters → Counters
count_auth auth_failed k = record k { auth_rejections = suc k.auth_rejections }
count_auth _ k = k

abbrev pub answer_registration : String → ℕ → Verdict → Relay → Relay
answer_registration id now (accepted tunnel_id) s = open_tunnel id now tunnel_id s
answer_registration id now (rejected code) s =
    emit (tunnel_error id code ∷ []) (record s { counters = count_auth code s.counters })

unfoldable pub register_tunnel :
    (String → ℕ → String → String)
    → RelayConfig
    → ℕ
    → TunnelRegistration
    → String
    → String
    → Relay
    → Relay
register_tunnel sign c now r id address s =
    let (next, ok) = within_event_budget c now id address s in
    if ok
    then answer_registration id now
        (authorize_registration sign r c.secret now c.timestamp_tolerance_ms) next
    else next

abbrev pub touch : ℕ → TunnelRecord → TunnelRecord
touch now t = record t { last_activity_at = now }

abbrev pub join_found : ℕ → String → String → Option TunnelRecord → Relay → Relay
join_found now id tunnel_id none s = emit (tunnel_error id tunnel_not_found ∷ []) s
join_found now id tunnel_id (some t) s =
    emit (joined id tunnel_id ∷ client_joined t.host_socket_id id ∷ [])
      (record s { tunnels = put tunnel_id (touch now t) s.tunnels })

unfoldable pub join_tunnel : RelayConfig → ℕ → String → String → String → Relay → Relay
join_tunnel c now tunnel_id id address s =
    let (next, ok) = within_event_budget c now id address s in
    if ok then join_found now id tunnel_id (get tunnel_id next.tunnels) next else next

abbrev pub touch_found : ℕ → String → Option TunnelRecord → Map TunnelRecord → Map TunnelRecord
touch_found now tunnel_id none tunnels = tunnels
touch_found now tunnel_id (some t) tunnels = put tunnel_id (touch now t) tunnels

-- `in_room` is what `socket.rooms.has` answers.
unfoldable pub forward_message : ℕ → Bool → String → String → String → Relay → Relay
forward_message now in_room tunnel_id payload id s =
    if in_room
    then emit (tunnel_message id tunnel_id payload ∷ []) (record s {
      tunnels = touch_found now tunnel_id (get tunnel_id s.tunnels) s.tunnels;
      counters = count_message s.counters;
    })
    else emit (tunnel_error id not_in_tunnel ∷ []) s

-- What the `for` loops that close tunnels change: the tunnels, what was sent, and `reaped`.
pub record Closing : Type 0 where
  pub tunnels : Map TunnelRecord
  pub log : List Effect
  pub reaped : ℕ

abbrev pub close_if : Bool → String → Closing → Closing
close_if false tunnel_id x = x
close_if true tunnel_id x = record {
  tunnels = delete tunnel_id x.tunnels;
  log = x.log ++ (tunnel_closed tunnel_id ∷ []);
  reaped = suc x.reaped;
}

-- The loop over the entries: a tunnel that passes the test is deleted, and its room told. An entry
-- is visited once, with the record it had at the start: the loop deletes only the one it is at.
unfoldable pub close_each : (TunnelRecord → Bool) → Map TunnelRecord → Closing → Closing
close_each closes [] x = x
close_each closes ((tunnel_id, t) ∷ rest) x =
    close_each closes rest (close_if (closes t) tunnel_id x)

abbrev pub close_tunnels : (TunnelRecord → Bool) → Relay → Closing
close_tunnels closes s =
    close_each closes s.tunnels (record { tunnels = s.tunnels; log = s.log; reaped = 0 })

-- `(connectionsPerIp.get(address) || 1) - 1`, deleted at zero.
abbrev pub release_connection : String → Map ℕ → Map ℕ
release_connection address connections =
    let remaining = get_or (get address connections) 1 - 1 in
    if ltb 0 remaining then put address remaining connections else delete address connections

abbrev pub hosted_by : String → TunnelRecord → Bool
hosted_by id t = str_eq t.host_socket_id id

unfoldable pub disconnect : String → String → Relay → Relay
unfolding close_each
disconnect id address s =
    let done = close_tunnels (hosted_by id) s in
    record s {
      connections_per_ip = release_connection address s.connections_per_ip;
      bound = delete id s.bound;
      tunnels = done.tunnels;
      log = done.log;
    }

-- `connected` is what `io.sockets.sockets.has` answers.
abbrev pub is_dead : RelayConfig → ℕ → (String → Bool) → TunnelRecord → Bool
is_dead c now connected t =
    not (connected t.host_socket_id) || ltb (t.last_activity_at + c.idle_tunnel_ms) now

unfoldable pub reap_now : RelayConfig → ℕ → (String → Bool) → Relay → Relay × ℕ
unfolding close_each
reap_now c now connected s =
    let done = close_tunnels (is_dead c now connected) s in
    (
      record s {
        tunnels = done.tunnels;
        log = done.log;
        hits = prune (record { limit = c.max_events_per_minute; window_ms = 60000 }) now s.hits;
        counters = count_reaped done.reaped s.counters;
      },
      done.reaped,
    )
