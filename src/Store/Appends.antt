-- ===== src/Store/Appends.antt =====
-- rain-engine-core/src/memory.rs: the trait `MemoryStoreExt`, one append for each kind of record,
-- over any `append_record`.
use rain_engine.Prelude.{String}
use rain_engine.Host.{Host}
use rain_engine.Types.Actions.{ExecutionPlanRecord, ModelDecisionRecord}
use rain_engine.Types.Tools.{
  ToolExecutionGraph, ToolNodeCheckpointRecord, SkillInputValidationRecord, ToolCallRecord,
  ToolResultRecord,
}
use rain_engine.Types.Events.{
  KernelEventRecord, TriggerRecord, TriggerIntentRecord, DelegationRecord,
}
use rain_engine.Types.Improvement.{
  ReflectionRecord, PolicyTuningRecord, StrategyPreferenceRecord, ToolPerformanceRecord,
  ProfilePatchRecord,
}
use rain_engine.Types.Records.{
  SessionRecord, NewSessionRecord, DeliberationRecord, PendingApprovalRecord,
  ApprovalResolutionRecord, CoordinationClaimRecord, ProviderUsageRecord, ProviderCacheRecord,
  SummaryRecord, OutcomeRecord,
}
use rain_engine.Ledger.Record.{new_record}

module _ {h : Host} {A : Type 0} (append_record : NewSessionRecord h → A) where
  unfoldable pub append : String → SessionRecord h → A
  append session r = append_record (new_record session r)

  unfoldable pub append_trigger : TriggerRecord h → A
  unfolding append
  append_trigger r = append r.session_id (SessionRecord.trigger r)

  unfoldable pub append_model_decision : String → ModelDecisionRecord h → A
  unfolding append
  append_model_decision session r = append session (SessionRecord.model_decision r)

  unfoldable pub append_trigger_intent : String → TriggerIntentRecord → A
  unfolding append
  append_trigger_intent session r = append session (SessionRecord.trigger_intent r)

  unfoldable pub append_deliberation : String → DeliberationRecord h → A
  unfolding append
  append_deliberation session r = append session (SessionRecord.deliberation r)

  unfoldable pub append_tool_execution_graph : String → ToolExecutionGraph h → A
  unfolding append
  append_tool_execution_graph session r = append session (SessionRecord.tool_execution_graph r)

  unfoldable pub append_execution_plan : String → ExecutionPlanRecord h → A
  unfolding append
  append_execution_plan session r = append session (SessionRecord.execution_plan r)

  unfoldable pub append_summary : String → SummaryRecord → A
  unfolding append
  append_summary session r = append session (SessionRecord.summary r)

  unfoldable pub append_tool_node_checkpoint : String → ToolNodeCheckpointRecord → A
  unfolding append
  append_tool_node_checkpoint session r = append session (SessionRecord.tool_node_checkpoint r)

  unfoldable pub append_skill_input_validation : String → SkillInputValidationRecord → A
  unfolding append
  append_skill_input_validation session r = append session (SessionRecord.skill_input_validation r)

  unfoldable pub append_kernel_event : String → KernelEventRecord h → A
  unfolding append
  append_kernel_event session r = append session (SessionRecord.kernel_event r)

  unfoldable pub append_tool_call : String → ToolCallRecord h → A
  unfolding append
  append_tool_call session r = append session (SessionRecord.tool_call r)

  unfoldable pub append_tool_result : String → ToolResultRecord h → A
  unfolding append
  append_tool_result session r = append session (SessionRecord.tool_result r)

  unfoldable pub append_pending_approval : String → PendingApprovalRecord h → A
  unfolding append
  append_pending_approval session r = append session (SessionRecord.pending_approval r)

  unfoldable pub append_approval_resolution : String → ApprovalResolutionRecord h → A
  unfolding append
  append_approval_resolution session r = append session (SessionRecord.approval_resolution r)

  unfoldable pub append_delegation : String → DelegationRecord h → A
  unfolding append
  append_delegation session r = append session (SessionRecord.delegation r)

  unfoldable pub append_coordination_claim : String → CoordinationClaimRecord → A
  unfolding append
  append_coordination_claim session r = append session (SessionRecord.coordination_claim r)

  unfoldable pub append_provider_usage : String → ProviderUsageRecord h → A
  unfolding append
  append_provider_usage session r = append session (SessionRecord.provider_usage r)

  unfoldable pub append_provider_cache : String → ProviderCacheRecord → A
  unfolding append
  append_provider_cache session r = append session (SessionRecord.provider_cache r)

  unfoldable pub append_reflection : String → ReflectionRecord h → A
  unfolding append
  append_reflection session r = append session (SessionRecord.reflection r)

  unfoldable pub append_policy_tuning : String → PolicyTuningRecord h → A
  unfolding append
  append_policy_tuning session r = append session (SessionRecord.policy_tuning r)

  unfoldable pub append_strategy_preference : String → StrategyPreferenceRecord h → A
  unfolding append
  append_strategy_preference session r = append session (SessionRecord.strategy_preference r)

  unfoldable pub append_tool_performance : String → ToolPerformanceRecord h → A
  unfolding append
  append_tool_performance session r = append session (SessionRecord.tool_performance r)

  unfoldable pub append_profile_patch : String → ProfilePatchRecord h → A
  unfolding append
  append_profile_patch session r = append session (SessionRecord.profile_patch r)

  unfoldable pub append_outcome : String → OutcomeRecord → A
  unfolding append
  append_outcome session r = append session (SessionRecord.outcome r)
