-- ===== src/Types.antt =====
-- The data model of rain-engine-core/src/types.rs, a module for each group of types.
pub mod Ids
pub mod Attachments
pub mod Policy
pub mod Actions
pub mod Tools
pub mod Events
pub mod Improvement
pub mod Records
pub mod Provider
pub mod Requests
pub mod State
