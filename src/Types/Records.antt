-- ===== src/Types/Records.antt =====
-- rain-engine-core/src/types.rs: the ledger's records, their kinds, and the stored form.
use rain_engine.Prelude.{ℕ, String, Option, List}
use rain_engine.Prelude.Int.{ℤ}
use rain_engine.Host.{Host}
use rain_engine.Types.Ids.{SystemTime, ResumeToken}
use rain_engine.Types.Actions.{
  ApprovalDecision, SuspendReason, PlannedSkillCall, ExecutionPlanRecord, ModelDecisionRecord,
}
use rain_engine.Types.Tools.{
  ToolExecutionGraph, ToolNodeCheckpointRecord, SkillInputValidationRecord, ToolCallRecord,
  ToolResultRecord,
}
use rain_engine.Types.Events.{
  KernelEventRecord, TriggerRecord, TriggerIntentRecord, DelegationRecord,
}
use rain_engine.Types.Improvement.{
  ReflectionRecord, PolicyTuningRecord, StrategyPreferenceRecord, ToolPerformanceRecord,
  ProfilePatchRecord,
}

pub data DeliberationOutcome : Type 0 where
  needs_refinement ready_to_act : DeliberationOutcome

pub data StopReason : Type 0 where
  responded yielded max_steps_reached deadline_exceeded cancelled : StopReason
  provider_failure storage_failure policy_aborted suspended delegated : StopReason

pub record OutcomeRecord : Type 0 where
  pub trigger_id : String
  pub idempotency_key : Option String
  pub finished_at : SystemTime
  pub stop_reason : StopReason
  pub response : Option String
  pub detail : Option String
  pub steps_executed : ℕ
  pub resume_token : Option ResumeToken

pub record CoordinationClaimRecord : Type 0 where
  pub claim_id : String
  pub trigger_key : String
  pub claimed_at : SystemTime
  pub expires_at : SystemTime

pub record ProviderCacheRecord : Type 0 where
  pub provider_name : String
  pub cached_content_id : String
  pub token_count : ℕ
  pub cached_at : SystemTime

pub record SummaryRecord : Type 0 where
  pub summary_id : String
  pub created_at : SystemTime
  pub content : String
  pub original_sequence_range : ℕ × ℕ

pub data SessionRecordKind : Type 0 where
  trigger trigger_intent kernel_event model_decision deliberation : SessionRecordKind
  tool_execution_graph tool_node_checkpoint skill_input_validation : SessionRecordKind
  tool_call tool_result pending_approval approval_resolution delegation : SessionRecordKind
  coordination_claim provider_usage provider_cache reflection : SessionRecordKind
  policy_tuning strategy_preference tool_performance profile_patch : SessionRecordKind
  execution_plan summary outcome : SessionRecordKind

module _ (h : Host) where
  pub record DeliberationRecord : Type 0 where
    pub deliberation_id : String
    pub trigger_id : String
    pub step : ℕ
    pub created_at : SystemTime
    pub summary : String
    pub candidate_actions : List String
    pub confidence : h.F64
    pub outcome : DeliberationOutcome

  pub record PendingApprovalRecord : Type 0 where
    pub resume_token : ResumeToken
    pub created_at : SystemTime
    pub trigger_id : String
    pub step : ℕ
    pub reason : SuspendReason
    pub pending_calls : List (PlannedSkillCall h)

  pub record ApprovalResolutionRecord : Type 0 where
    pub resume_token : ResumeToken
    pub resolved_at : SystemTime
    pub decision : ApprovalDecision
    pub metadata : h.Value

  pub record ProviderUsageRecord : Type 0 where
    pub provider_name : String
    pub recorded_at : SystemTime
    pub input_tokens : ℕ
    pub output_tokens : ℕ
    pub estimated_cost_usd : h.F64
    pub cached_content_id : Option String

  pub data SessionRecord : Type 0 where
    trigger : TriggerRecord h → SessionRecord
    trigger_intent : TriggerIntentRecord → SessionRecord
    kernel_event : KernelEventRecord h → SessionRecord
    model_decision : ModelDecisionRecord h → SessionRecord
    deliberation : DeliberationRecord → SessionRecord
    tool_execution_graph : ToolExecutionGraph h → SessionRecord
    tool_node_checkpoint : ToolNodeCheckpointRecord → SessionRecord
    skill_input_validation : SkillInputValidationRecord → SessionRecord
    tool_call : ToolCallRecord h → SessionRecord
    tool_result : ToolResultRecord h → SessionRecord
    pending_approval : PendingApprovalRecord → SessionRecord
    approval_resolution : ApprovalResolutionRecord → SessionRecord
    delegation : DelegationRecord h → SessionRecord
    coordination_claim : CoordinationClaimRecord → SessionRecord
    provider_usage : ProviderUsageRecord → SessionRecord
    provider_cache : ProviderCacheRecord → SessionRecord
    reflection : ReflectionRecord h → SessionRecord
    policy_tuning : PolicyTuningRecord h → SessionRecord
    strategy_preference : StrategyPreferenceRecord h → SessionRecord
    tool_performance : ToolPerformanceRecord h → SessionRecord
    profile_patch : ProfilePatchRecord h → SessionRecord
    execution_plan : ExecutionPlanRecord h → SessionRecord
    summary : SummaryRecord → SessionRecord
    outcome : OutcomeRecord → SessionRecord

  pub record StoredSessionRecord : Type 0 where
    pub session_id : String
    pub sequence_no : ℕ
    pub occurred_at_ms : ℤ
    pub record_kind : SessionRecordKind
    pub trigger_id : Option String
    pub idempotency_key : Option String
    pub entry : SessionRecord

  pub record NewSessionRecord : Type 0 where
    pub session_id : String
    pub occurred_at_ms : ℤ
    pub record_kind : SessionRecordKind
    pub trigger_id : Option String
    pub idempotency_key : Option String
    pub entry : SessionRecord

  pub record SessionSnapshot : Type 0 where
    pub session_id : String
    pub records : List SessionRecord
    pub last_sequence_no : Option ℕ
    pub latest_outcome : Option OutcomeRecord
