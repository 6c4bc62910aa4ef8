-- ===== src/Engine.antt =====
-- rain-engine-core/src/engine.rs: `AgentEngine`, and how it advances a session.
pub mod Context
pub mod Contents
pub mod Improve
pub mod Finish
pub mod Actions
pub mod Step
pub mod Planning
pub mod Approvals
pub mod Continue
pub mod Advance
