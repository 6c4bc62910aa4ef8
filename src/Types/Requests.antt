-- ===== src/Types/Requests.antt =====
-- rain-engine-core/src/types.rs: requests, results, the execution context and page queries.
use rain_engine.Prelude.{ℕ, String, Bool, false, Option, none, List}
use rain_engine.Prelude.Int.{ℤ}
use rain_engine.Host.{Host}
use rain_engine.Types.Ids.{
  SystemTime, Instant, ResumeToken, CorrelationId, GoalId, TaskId, ArtifactId, ObservationId,
}
use rain_engine.Types.Policy.{EnginePolicy}
use rain_engine.Types.Tools.{ToolResultRecord}
use rain_engine.Types.Events.{KernelEventRecord, WakeRequestRecord, AgentTrigger}
use rain_engine.Types.Provider.{ProviderRequestConfig}
use rain_engine.Types.Records.{OutcomeRecord, StopReason, SessionRecord, StoredSessionRecord}

pub record EngineOutcome : Type 0 where
  pub trigger_id : String
  pub stop_reason : StopReason
  pub response : Option String
  pub detail : Option String
  pub steps_executed : ℕ
  pub idempotent_replay : Bool
  pub resume_token : Option ResumeToken

-- `EngineOutcome::from_record`
unfoldable pub from_record : OutcomeRecord → EngineOutcome
from_record r = record {
  trigger_id = r.trigger_id;
  stop_reason = r.stop_reason;
  response = r.response;
  detail = r.detail;
  steps_executed = r.steps_executed;
  idempotent_replay = false;
  resume_token = r.resume_token;
}

pub record AgentStateDelta : Type 0 where
  pub created_goal_ids : List GoalId
  pub updated_task_ids : List TaskId
  pub observation_ids : List ObservationId
  pub artifact_ids : List ArtifactId
  pub delegation_correlation_ids : List CorrelationId

module _ (h : Host) where
  pub record AdvanceResult : Type 0 where
    pub outcome : Option EngineOutcome
    pub emitted_events : List (KernelEventRecord h)
    pub state_delta : AgentStateDelta
    pub wake_request : Option WakeRequestRecord

  -- The cancellation token is outside; asking it is a call to the outside.
  pub record ExecutionMetadata : Type 0 where
    pub trigger_id : String
    pub idempotency_key : Option String
    pub started_at : SystemTime
    pub deadline : Instant
    pub policy : EnginePolicy h
    pub provider : ProviderRequestConfig h

  pub record AgentContext : Type 0 where
    pub session_id : String
    pub records : List (SessionRecord h)
    pub prior_tool_results : List (ToolResultRecord h)
    pub granted_scopes : List String
    pub metadata : ExecutionMetadata

  -- The cancellation token is left to the outside.
  pub record ProcessRequest : Type 0 where
    pub session_id : String
    pub trigger : AgentTrigger h
    pub granted_scopes : List String
    pub idempotency_key : Option String
    pub policy : EnginePolicy h
    pub provider : ProviderRequestConfig h

  pub record ContinueRequest : Type 0 where
    pub session_id : String
    pub granted_scopes : List String
    pub policy : EnginePolicy h
    pub provider : ProviderRequestConfig h

  pub data AdvanceRequest : Type 0 where
    trigger : ProcessRequest → AdvanceRequest
    continue : ContinueRequest → AdvanceRequest

  pub record RecordPage : Type 0 where
    pub session_id : String
    pub records : List (StoredSessionRecord h)
    pub next_offset : Option ℕ

pub record SessionSummary : Type 0 where
  pub session_id : String
  pub first_recorded_at_ms : ℤ
  pub last_recorded_at_ms : ℤ
  pub record_count : ℕ

pub record SessionListQuery : Type 0 where
  pub offset : ℕ
  pub limit : ℕ
  pub since_ms : Option ℤ
  pub until_ms : Option ℤ

pub record RecordPageQuery : Type 0 where
  pub session_id : String
  pub offset : ℕ
  pub limit : ℕ
  pub since_ms : Option ℤ
  pub until_ms : Option ℤ

-- `RecordPageQuery::new`
unfoldable pub first_page : String → RecordPageQuery
first_page id = record {
  session_id = id;
  offset = 0;
  limit = 100;
  since_ms = none;
  until_ms = none;
}
