-- ===== src/Lib.antt =====
-- Verification of the core of Asterim.
--
-- Asterim's Core (apps/server) runs coding agents on one workstation and gates what they do; people
-- reach it from browsers and phones that pair with a PIN, over the local network or through a blind
-- relay (apps/relay). The parts modelled here decide who may act, when, and in which order.
--
-- TurnLock: apps/server/src/services/ai/AgentTurnLock.ts with the turn types of
-- packages/shared/src/types/teamAgent.ts. `Types` has the data, `Lane` the private helpers,
-- `Methods` the public methods (`enqueue`, `acquireTurn`, `releaseTurn`, `cancelTurn`,
-- `markAwaitingApproval`, `resumeFromApproval`, `clearThread` and the queries), `Calls` sequences
-- of calls. The broadcaster and the promises are effects in the state's `log`. `Invariant`,
-- `Branches`, `Reachable`, `Order`, `Fifo`, `Handoff`, `Memory` and `Settled` hold the proofs.
-- `evict`, the loop of `markSettled`, recurs on the set.
--
-- Pairing: apps/server/src/services/PairingService.ts. `attemptPairing` is cut at its `await`, so
-- that attempts interleave; `Budget`, `Expiry` and `Lockout` are about attempts, `Tokens` about
-- session tokens, where HMAC, JSON and base64url are parameters; a time of issue that is negative
-- or has a fraction is left out. The generation of the PIN and of the secret, the vault and the
-- console are not modelled.
--
-- Relay: apps/relay/src/relayServer.ts. `Limiter` is `SlidingWindowLimiter`, `Authorize`
-- `authorizeRegistration`, where HMAC is a parameter, `Server` the state of `createRelayServer`
-- with its handlers and `reapNow`, `Run` the events that reach them. What socket.io answers
-- (whether a socket is in a room or connected) comes with the event, and what is asked of it goes
-- to a log. `Window`, `Connections` and `Tunnels` hold the proofs. The health routes, the metrics
-- and the interval are not modelled.
--
-- Approvals: apps/server/src/services/ApprovalManager.ts. `Requests` is the life of a request
-- (`requestApproval` with its timer, the response, the cancellations, the recovery), with the table
-- `approvals` as a map and the failure of its statements as an argument; `Settling` has the events.
-- `Security` is `evaluateCommandSecurity` and `Tools` `evaluateToolSecurity`, where the regular
-- expressions, `toLowerCase`, `JSON.stringify` and the fleet policy's answer are parameters;
-- `Governed` gives the answer that Fleet computes. `Once`, `Thread`, `Rows`, `Recorded`, `Tightens`
-- and `Risk` hold the proofs.
--
-- Fleet: apps/server/src/services/enterprise/FleetPolicyService.ts with
-- packages/shared/src/types/fleet.ts. `Config` is `normalizePolicyConfig`, `Policy` the loading and
-- `resolve` with its cache, `Questions` what is asked (`validateCommand`, `validateModel`,
-- `requiresApproval`), `Updates` `updatePolicy`. `Caching` has sequences of questions, updates and
-- changes of the file. The policy file and the table are a `World`; a column of JSON is what
-- `JSON.parse` makes of it. `FailClosed`, `Caching` and `Stored` hold the proofs. The messages of
-- the refusals are not modelled.
--
-- Pipeline: the graph functions of packages/shared/src/types/pipeline.ts. `Graph` has
-- `topologicalPipelineOrder`, `readyPipelineStepIds` and `aggregatePipelineRunStatus`; `Prepared`,
-- `Release`, `Turn`, `Ordered`, `Complete`, `Fuel` and `Status` hold the proofs. The fuel of the
-- loop is the length of the queue and the number of steps that still wait, which each turn lessens.
-- `Cycle` is `findPipelineCycle`, with its proofs below it; its fuel is the number of steps and of
-- all their dependencies, since each turn pops a step or walks one dependency and no step is pushed
-- twice. `Ancestors` is `pipelineAncestorIds`, whose recursion has fuel for every step.
--
-- Pipeline/Parser: apps/server/src/services/pipeline/PipelineParser.ts. `Values` has the readers of
-- single values, `Readers` those of a step, the trigger and the parameters, `Steps` `readSteps`,
-- `resolvesToProfile` and `parse`; `Bounds`, `Checked`, `Accepted` and `Parsed` hold the proofs.
-- The document is what `parseSafeYaml` returned, the profiles that the profile service knows are a
-- `Catalogue`, and `toLowerCase` and `toUpperCase` are parameters. An error is a value with what
-- its message names. `parseDirectory` is not modelled.
--
-- Pipeline/SafeYaml: apps/server/src/services/pipeline/SafeYaml.ts. `Scalars` has comments, keys
-- and quoted texts, `Plain` the other single values, `Flow` `parseScalar` and the flow collections,
-- `Lines` the fields and helpers of `SafeYamlReader`, `BlockScalars` `parseBlockScalar`, `Turns`
-- the turns of `parseMapping` and `parseSequence`, `Blocks` these with `parseNode`, `read` and
-- `parseSafeYaml`. The lines from the index on are a list, so that a rewritten line is a new head.
-- `Safe`, `Texts`, `FlowTurns`, `FlowEntries`, `FlowSafe`, `LinesSafe`, `BlockTurns`,
-- `BlockEntries`, `BlockItems` and `BlocksSafe` hold the proofs about bounds and fuel, `Printed`,
-- `PrintedLines`, `Fields` and `RoundTrip` a printer and its round trip. A flow value has fuel for
-- two calls a character, and the blocks for three a line: as a block, as an item and as an entry.
-- JavaScript's `Number` is a parameter; keys stand in the order in which they were written, those
-- that look like numbers too.
--
-- Engine: apps/server/src/services/pipeline/PipelineEngine.ts. `Types` has the rows of a run, the
-- variables of `execute` and the `World`; `Dispatch` is `dispatch`, `dispatchWithRetries` and what
-- they call, `Loop` is `execute` with `recordStepOutcome`, `settleRemaining` and `finish`, `Runs`
-- is `runPipeline`, `Stored` `cancelPipeline` and `recoverRuns` over the stored runs. Every await
-- advances a tick, and the `World` says what stands behind each tick: the clock, the reason of a
-- cancellation, the answers of the worktree fleet and of the delegation service. `Changes` says
-- what every step of a run keeps; `Moves`, `Retries`, `Batches`, `Shape`, `Ready`, `Waiting`,
-- `Turned`, `Ended`, `Ordered`, `Attempts`, `Rooms`, `Carried`, `Passing`, `Succeeded`, `Bounded`
-- and `Recovered` hold the proofs. The fuel of the retries is the number of attempts that the batch
-- has, that of the loop the number of steps: every turn that goes on has a step pass that was
-- pending. The text of a brief and the failures of the database and of the bus are not modelled,
-- nor is the saving of pipelines. A character that `truncate` would halve is left out. The wait
-- between two attempts has one slice a millisecond of its delay as fuel, which is enough when each
-- slice takes at least a millisecond of the clock; `Delayed` is about its end.
--
-- Migrations: apps/server/src/services/MigrationEngine.ts. `Migrations` is the constructor,
-- `canonicalContent`, `verifyChecksums`, `applyMigration` and `runMigrations`, `Status` is
-- `getStatus`; `Tables` and `Rerun` hold the proofs. What SQLite does with a statement, `BEGIN` and
-- `COMMIT`, the snapshot and SHA-256 are parameters. A statement that throws is one without a
-- result, and what was begun is then the database as it was, as `ROLLBACK` restores it; a
-- `ROLLBACK` that fails is not modelled. The table `schema_migrations` is there from the start, as
-- `initMigrationsTable` creates it.
--
-- Prelude: tests, lists, and JavaScript's `Map` as a list of entries in insertion order.
--
-- Times and counts are unbounded natural numbers; strings are sequences of code points,
-- whose length is counted in UTF-16 units where the source bounds it.
pub mod Prelude
pub mod TurnLock
pub mod Pairing
pub mod Relay
pub mod Approvals
pub mod Fleet
pub mod Pipeline
pub mod Engine
pub mod Migrations
