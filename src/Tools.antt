-- ===== src/Tools.antt =====
-- Tool execution of rain-engine-core/src/engine.rs: the graph of a batch of calls and the attempts at a
-- call.
pub mod Graph
pub mod Attempts
pub mod Schema
pub mod Performance
pub mod Prepare
pub mod Execute
