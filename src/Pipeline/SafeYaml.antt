-- ===== src/Pipeline/SafeYaml.antt =====
-- The reader of pipeline files (apps/server/src/services/pipeline/SafeYaml.ts).
pub mod Answers
pub mod Scalars
pub mod Plain
pub mod Flow
pub mod Lines
pub mod BlockScalars
pub mod Turns
pub mod Blocks
pub mod Safe
pub mod Texts
pub mod FlowTurns
pub mod FlowEntries
pub mod FlowSafe
pub mod LinesSafe
pub mod BlockTurns
pub mod BlockEntries
pub mod BlockItems
pub mod BlocksSafe
pub mod Printed
pub mod PrintedLines
pub mod Fields
pub mod RoundTrip
mod Examples
