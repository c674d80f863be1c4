-- ===== src/Relay.antt =====
-- The cloud relay (apps/relay/src/relayServer.ts), a blind forwarder between workstations and mobile
-- clients.
pub mod Limiter
pub mod Window
pub mod Authorize
pub mod Server
pub mod Run
pub mod Connections
pub mod Tunnels
mod Examples
