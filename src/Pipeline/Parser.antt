-- ===== src/Pipeline/Parser.antt =====
-- The gate in front of the pipelines (apps/server/src/services/pipeline/PipelineParser.ts).
pub mod Values
pub mod Readers
pub mod Steps
pub mod Bounds
pub mod Checked
pub mod Accepted
pub mod Parsed
pub mod Examples
