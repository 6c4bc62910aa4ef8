-- ===== src/World.antt =====
-- What the engine of rain-engine-core/src/engine.rs works on: the memory store and the state cache,
-- and what answers it from outside. A call to the outside is numbered by its place in the run, so
-- that any sequence of answers can be given.
pub mod Appends
pub mod Exec
pub mod Grows
pub mod Returns
use rain_engine.Prelude.{ℕ, String, Bool, Option, List}
use rain_engine.Prelude.Assoc.{Assoc}
use rain_engine.Host.{Host}
use rain_engine.Types.Ids.{SystemTime, Instant}
use rain_engine.Types.Actions.{ExecutionPlan, PlannedSkillCall}
use rain_engine.Types.Tools.{Result, ToolResultRecord}
use rain_engine.Types.Events.{KernelEvent}
use rain_engine.Types.Records.{SessionSnapshot, SessionRecord, StoredSessionRecord}
use rain_engine.Types.Provider.{ProviderError, ProviderRequest, ProviderDecision}
use rain_engine.Store.{InMemoryMemoryStore}

module _ (h : Host) where
  -- rain-engine-core/src/traits.rs
  pub record PlannerOutput : Type 0 where
    pub events : List (KernelEvent h)
    pub proposed_plan : Option (ExecutionPlan h)

  pub record World : Type 0 where
    pub memory : InMemoryMemoryStore h
    pub state_cache : Assoc (SessionSnapshot h)
    -- how many calls to the outside were made
    pub calls : ℕ

  -- The answers from outside, by the number of the call.
  pub record Outside : Type 0 where
    -- `SystemTime::now()` and `Instant::now()`
    pub now : ℕ → SystemTime
    pub instant : ℕ → Instant
    -- `Uuid::new_v4()`
    pub uuid : ℕ → String
    -- the message with which a call of the memory store fails, before it does anything
    pub memory_fails : ℕ → Option String
    -- `LlmProvider::generate_action`, and whether its answer comes after the timeout
    pub generate_action : ℕ → ProviderRequest h → Result (ProviderDecision h) ProviderError
    pub is_late : ℕ → Bool
    -- whether the token is cancelled
    pub is_cancelled : ℕ → Bool
    -- the order in which the tasks of a `JoinSet` end
    pub joined : ℕ → List (ToolResultRecord h) → List (ToolResultRecord h)
    -- the derived `Debug` and `Serialize` of records and times, and `str::to_lowercase`
    pub debug_record : SessionRecord h → String
    pub to_value : List (StoredSessionRecord h) → h.Value
    pub debug_time : SystemTime → String
    -- `serde_json::to_value(calls).unwrap_or_default()`
    pub calls_value : List (PlannedSkillCall h) → h.Value
    pub to_lowercase : String → String
    -- the objects that `serde_json::json!` builds
    pub json_text : String → String → h.Value
    pub json_number : String → ℕ → h.Value
    -- `{:.6}` and `{:.0}` of a float
    pub show_fixed : ℕ → h.F64 → String

-- rain-engine-core/src/engine.rs
pub data EngineError : Type 0 where
  memory blob provider : String → EngineError
