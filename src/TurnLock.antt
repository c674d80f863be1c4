-- ===== src/TurnLock.antt =====
-- The turn lock of a shared team agent (apps/server/src/services/ai/AgentTurnLock.ts) and the turn
-- types it serves (packages/shared/src/types/teamAgent.ts).
--
-- A method takes the lock's state and the time of `Date.now()`, and returns the state after it. Two
-- kinds of effect leave the lock, and both go to the end of `log`, in order: an event given to the
-- broadcaster, and the answer to a promise of `acquireTurn`. A promise is a number, fresh for each
-- `new Promise`. The broadcaster is taken not to call the lock back and not to throw.
pub mod Types
pub mod Lane
pub mod Methods
pub mod Invariant
pub mod Branches
pub mod Calls
pub mod Reachable
pub mod Order
pub mod Fifo
pub mod Handoff
pub mod Memory
pub mod Settled
mod Examples
