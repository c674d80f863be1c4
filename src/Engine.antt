-- ===== src/Engine.antt =====
-- The scheduling of pipeline runs (apps/server/src/services/pipeline/PipelineEngine.ts).
pub mod Types
pub mod Dispatch
pub mod Delayed
pub mod Loop
pub mod Changes
pub mod Moves
pub mod Retries
pub mod Batches
pub mod Shape
pub mod Ready
pub mod Waiting
pub mod Turned
pub mod Ended
pub mod Runs
pub mod Stored
pub mod Recovered
pub mod Ordered
pub mod Attempts
pub mod Rooms
pub mod Carried
pub mod Passing
pub mod Succeeded
pub mod Bounded
mod Examples
