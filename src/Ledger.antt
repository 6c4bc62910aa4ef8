-- ===== src/Ledger.antt =====
-- The append-only ledger of rain-engine-core/src/types.rs: the record kinds and their names, the
-- fields that every record has, and the projections of a session's records.
pub mod Kind
pub mod Record
pub mod Window
pub mod State
pub mod Views
pub mod Overlay
