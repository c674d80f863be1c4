-- ===== src/Approvals.antt =====
-- Approval requests (apps/server/src/services/ApprovalManager.ts): their life, and the analysis that
-- says how much scrutiny a command or a tool call gets.
pub mod Requests
pub mod Settling
pub mod Once
pub mod Rows
pub mod Recorded
pub mod Thread
pub mod Security
pub mod Tools
pub mod Tightens
pub mod Risk
pub mod Governed
mod Examples
