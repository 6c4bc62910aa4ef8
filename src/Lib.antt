-- ===== src/Lib.antt =====
-- A verification library for rain-engine, an event-sourced kernel for agent systems.
--
-- The program. A session of an agent is a ledger: a list of records (`SessionRecord`) that only grows.
-- The engine advances a session by one step at a time: it loads the ledger from a memory store, computes
-- what the step needs from projections of the ledger (which trigger is active, how many steps it has
-- taken, which plan and which policy overlay hold), asks a model for an action, runs the calls of the
-- action as a graph of tools, and appends what happened. Every decision is thus a function of the
-- ledger, and a session that is interrupted goes on from its records.
--
-- The files and the code they are about:
--   * Prelude and below: Boolean tests, lists, association lists for HashMap, a stable insertion sort
--     for sort_by, a signed number for i32 and i64, texts.
--   * Host: serde_json::Value and f64 with the operations the code uses of them, as a parameter. No law
--     is assumed of them unless a theorem names it.
--   * Types and below: the structs and enums of rain-engine-core/src/types.rs, with the defaults of the
--     policies and the application of policy overlays.
--   * Ledger and below: the projections of SessionSnapshot in rain-engine-core/src/types.rs, the names
--     of record kinds, and the steps of an execution plan in rain-engine-core/src/engine.rs.
--     Ledger.State is agent_state, the goals, tasks and wakes that the kernel events make up.
--   * Store and below: InMemoryMemoryStore and MemoryStoreExt of rain-engine-core/src/memory.rs.
--   * Coordination and below: InMemoryCoordinationStore of rain-engine-core/src/coordination.rs.
--   * Blobs and below: InMemoryBlobStore of rain-engine-core/src/blob.rs.
--   * Tools and below: tool graphs, their statuses and the attempts at a call, of
--     rain-engine-core/src/engine.rs.
--   * Kernel and below: the events of a trigger, its intent and the results of an advance, of
--     rain-engine-core/src/engine.rs.
--   * World and below: what the engine works on. World is the memory store, the state cache and the
--     number of calls made to the outside, with the Outside that answers them; World.Exec is code over
--     it that may fail, with a do block for each body that awaits and uses `?`; World.Grows, World.Returns
--     and World.Appends are the rules for proofs about such code.
--   * Engine and below: AgentEngine of rain-engine-core/src/engine.rs. Context is the engine and the
--     context of an advance, Contents build_provider_contents, Improve run_self_improvement, Finish
--     finish, suspend and policy_outcome, Actions execute_action, Step perform_single_step, Planning the planner's part, Approvals the
--     approval's part, Continue advance_continue, Advance advance_trigger and advance.
--   * Tuning and below: the proposals and rollbacks of self-improvement in
--     rain-engine-core/src/engine.rs.
--   * Examples: the theorems at concrete inputs.
--
-- How the code is modelled. What is done under one lock is a function from the state to the state.
-- Where an operation takes two locks, one after the other, as append_record does, it is two functions,
-- and Store.Concurrent has the steps of the appends that run at the same time. Elsewhere, and in the
-- engine, the two follow on each other: an advance runs alone on its store. Async calls are calls. A
-- HashMap is an association list with one entry for each key; where the code iterates over it, the
-- model takes the order of the list. Structs are records with the fields of the source and enums are
-- data types with its constructors; newtypes over String are records of one field. In the engine, a
-- call to the outside (the clock, a fresh identifier, the model, the token of cancellation, the end of
-- tasks, and whether the memory store fails) is answered by the number of the call, so every sequence
-- of answers is covered; elsewhere the clock and fresh identifiers are arguments. usize, u64 and i64
-- are unbounded numbers, with a stop at 0 where the source saturates.
--
-- Fuel and bounds. The client that follows pages (Store.Pages) runs on a number of pages, and one more
-- than the records left is enough. The loop over attempts (Tools.Attempts) recurs on the attempts left,
-- which start as the policy's limit. The loop over a graph (Tools.Execute) runs on a number of rounds,
-- and one more than the nodes of the graph is enough where every spawned task is joined; finished_batch
-- fails where the rounds run out. All other loops recur on lists.
--
-- Not modelled: a task that panics, the persistent registration of WASM skills and the skill store, the
-- client of Valkey, the runtime server, the WASM executor, the model providers, the database stores, the
-- planners, the channels and the skills. Metrics and tracing are left out everywhere, as they change no
-- state. The map results_by_call of execute_planned_calls is only written and is left out.
pub mod Prelude
pub mod Host
pub mod Types
pub mod Ledger
pub mod Store
pub mod Blobs
pub mod Tools
mod Examples
pub mod Coordination
pub mod Tuning
pub mod World
pub mod Kernel
pub mod Engine
