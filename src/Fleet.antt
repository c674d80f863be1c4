-- ===== src/Fleet.antt =====
-- The fleet policy (apps/server/src/services/enterprise/FleetPolicyService.ts).
pub mod Config
pub mod Policy
pub mod Questions
pub mod Updates
pub mod FailClosed
pub mod Caching
pub mod Stored
mod Examples
