-- ===== src/Pipeline.antt =====
-- The dependency graph of a pipeline (packages/shared/src/types/pipeline.ts).
pub mod Graph
pub mod Fuel
pub mod Prepared
pub mod Release
pub mod Turn
pub mod Ordered
pub mod Complete
pub mod Status
pub mod Cycle
pub mod Ancestors
pub mod Parser
pub mod SafeYaml
pub mod Examples
