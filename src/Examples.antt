-- ===== src/Examples.antt =====
-- The theorems at concrete inputs, over a sample of the external types.
mod Sample
mod LedgerRuns
mod StoreRuns
mod ToolRuns
mod EngineRuns
mod BlobRuns
mod ContentsRuns
mod CoordinationRuns
mod StateRuns
mod TuningRuns
