-- ===== src/World/Appends.antt =====
-- Every append of `MemoryStoreExt` only adds to its session.
use rain_engine.Prelude.{String, ◌≡◌, sym}
use rain_engine.Host.{Host}
use rain_engine.Types.Actions.{ExecutionPlanRecord, ModelDecisionRecord}
use rain_engine.Types.Tools.{
  ToolExecutionGraph, ToolNodeCheckpointRecord, SkillInputValidationRecord, ToolCallRecord,
  ToolResultRecord,
}
use rain_engine.Types.Events.{
  KernelEventRecord, TriggerRecord, TriggerIntentRecord, DelegationRecord,
}
use rain_engine.Types.Improvement.{
  ReflectionRecord, PolicyTuningRecord, StrategyPreferenceRecord, ToolPerformanceRecord,
  ProfilePatchRecord,
}
use rain_engine.Types.Records.{
  DeliberationRecord, PendingApprovalRecord, ApprovalResolutionRecord, CoordinationClaimRecord,
  ProviderUsageRecord, ProviderCacheRecord, SummaryRecord, OutcomeRecord,
}
use rain_engine.Store.{InMemoryMemoryStore}
use rain_engine.Store.Appends
use rain_engine.Store.Appends.{
  append_trigger, append_model_decision, append_trigger_intent, append_deliberation,
  append_tool_execution_graph, append_execution_plan, append_summary, append_tool_node_checkpoint,
  append_skill_input_validation, append_kernel_event, append_tool_call, append_tool_result,
  append_pending_approval, append_approval_resolution, append_delegation, append_coordination_claim,
  append_provider_usage, append_provider_cache, append_reflection, append_policy_tuning,
  append_strategy_preference, append_tool_performance, append_profile_patch, append_outcome,
}
use rain_engine.World.{Outside}
use rain_engine.World.Exec.{append}
use rain_engine.World.Grows.{Keeps, Fails, Extends, Keeps-append, keeps_rules}

module _ {h : Host} (outside : Outside h) (s0 : InMemoryMemoryStore h) where
  pub Keeps-append_trigger :
      (id : String) (r : TriggerRecord h)
      → r.session_id ≡ id
      → Keeps (Extends id s0) (Fails outside) (append_trigger (append outside) r)
  unfolding append_trigger Appends.append
  Keeps-append_trigger id r same = rw (sym same) (Keeps-append outside r.session_id s0 _)

  pub Keeps-append_model_decision :
      (id : String) (r : ModelDecisionRecord h)
      → Keeps (Extends id s0) (Fails outside) (append_model_decision (append outside) id r)
  unfolding append_model_decision Appends.append
  Keeps-append_model_decision id r = Keeps-append outside id s0 _

  pub Keeps-append_trigger_intent :
      (id : String) (r : TriggerIntentRecord)
      → Keeps (Extends id s0) (Fails outside) (append_trigger_intent (append outside) id r)
  unfolding append_trigger_intent Appends.append
  Keeps-append_trigger_intent id r = Keeps-append outside id s0 _

  pub Keeps-append_deliberation :
      (id : String) (r : DeliberationRecord h)
      → Keeps (Extends id s0) (Fails outside) (append_deliberation (append outside) id r)
  unfolding append_deliberation Appends.append
  Keeps-append_deliberation id r = Keeps-append outside id s0 _

  pub Keeps-append_tool_execution_graph :
      (id : String) (r : ToolExecutionGraph h)
      → Keeps (Extends id s0) (Fails outside) (append_tool_execution_graph (append outside) id r)
  unfolding append_tool_execution_graph Appends.append
  Keeps-append_tool_execution_graph id r = Keeps-append outside id s0 _

  pub Keeps-append_execution_plan :
      (id : String) (r : ExecutionPlanRecord h)
      → Keeps (Extends id s0) (Fails outside) (append_execution_plan (append outside) id r)
  unfolding append_execution_plan Appends.append
  Keeps-append_execution_plan id r = Keeps-append outside id s0 _

  pub Keeps-append_summary :
      (id : String) (r : SummaryRecord)
      → Keeps (Extends id s0) (Fails outside) (append_summary (append outside) id r)
  unfolding append_summary Appends.append
  Keeps-append_summary id r = Keeps-append outside id s0 _

  pub Keeps-append_tool_node_checkpoint :
      (id : String) (r : ToolNodeCheckpointRecord)
      → Keeps (Extends id s0) (Fails outside) (append_tool_node_checkpoint (append outside) id r)
  unfolding append_tool_node_checkpoint Appends.append
  Keeps-append_tool_node_checkpoint id r = Keeps-append outside id s0 _

  pub Keeps-append_skill_input_validation :
      (id : String) (r : SkillInputValidationRecord)
      → Keeps (Extends id s0) (Fails outside) (append_skill_input_validation (append outside) id r)
  unfolding append_skill_input_validation Appends.append
  Keeps-append_skill_input_validation id r = Keeps-append outside id s0 _

  pub Keeps-append_kernel_event :
      (id : String) (r : KernelEventRecord h)
      → Keeps (Extends id s0) (Fails outside) (append_kernel_event (append outside) id r)
  unfolding append_kernel_event Appends.append
  Keeps-append_kernel_event id r = Keeps-append outside id s0 _

  pub Keeps-append_tool_call :
      (id : String) (r : ToolCallRecord h)
      → Keeps (Extends id s0) (Fails outside) (append_tool_call (append outside) id r)
  unfolding append_tool_call Appends.append
  Keeps-append_tool_call id r = Keeps-append outside id s0 _

  pub Keeps-append_tool_result :
      (id : String) (r : ToolResultRecord h)
      → Keeps (Extends id s0) (Fails outside) (append_tool_result (append outside) id r)
  unfolding append_tool_result Appends.append
  Keeps-append_tool_result id r = Keeps-append outside id s0 _

  pub Keeps-append_pending_approval :
      (id : String) (r : PendingApprovalRecord h)
      → Keeps (Extends id s0) (Fails outside) (append_pending_approval (append outside) id r)
  unfolding append_pending_approval Appends.append
  Keeps-append_pending_approval id r = Keeps-append outside id s0 _

  pub Keeps-append_approval_resolution :
      (id : String) (r : ApprovalResolutionRecord h)
      → Keeps (Extends id s0) (Fails outside) (append_approval_resolution (append outside) id r)
  unfolding append_approval_resolution Appends.append
  Keeps-append_approval_resolution id r = Keeps-append outside id s0 _

  pub Keeps-append_delegation :
      (id : String) (r : DelegationRecord h)
      → Keeps (Extends id s0) (Fails outside) (append_delegation (append outside) id r)
  unfolding append_delegation Appends.append
  Keeps-append_delegation id r = Keeps-append outside id s0 _

  pub Keeps-append_coordination_claim :
      (id : String) (r : CoordinationClaimRecord)
      → Keeps (Extends id s0) (Fails outside) (append_coordination_claim (append outside) id r)
  unfolding append_coordination_claim Appends.append
  Keeps-append_coordination_claim id r = Keeps-append outside id s0 _

  pub Keeps-append_provider_usage :
      (id : String) (r : ProviderUsageRecord h)
      → Keeps (Extends id s0) (Fails outside) (append_provider_usage (append outside) id r)
  unfolding append_provider_usage Appends.append
  Keeps-append_provider_usage id r = Keeps-append outside id s0 _

  pub Keeps-append_provider_cache :
      (id : String) (r : ProviderCacheRecord)
      → Keeps (Extends id s0) (Fails outside) (append_provider_cache (append outside) id r)
  unfolding append_provider_cache Appends.append
  Keeps-append_provider_cache id r = Keeps-append outside id s0 _

  pub Keeps-append_reflection :
      (id : String) (r : ReflectionRecord h)
      → Keeps (Extends id s0) (Fails outside) (append_reflection (append outside) id r)
  unfolding append_reflection Appends.append
  Keeps-append_reflection id r = Keeps-append outside id s0 _

  pub Keeps-append_policy_tuning :
      (id : String) (r : PolicyTuningRecord h)
      → Keeps (Extends id s0) (Fails outside) (append_policy_tuning (append outside) id r)
  unfolding append_policy_tuning Appends.append
  Keeps-append_policy_tuning id r = Keeps-append outside id s0 _

  pub Keeps-append_strategy_preference :
      (id : String) (r : StrategyPreferenceRecord h)
      → Keeps (Extends id s0) (Fails outside) (append_strategy_preference (append outside) id r)
  unfolding append_strategy_preference Appends.append
  Keeps-append_strategy_preference id r = Keeps-append outside id s0 _

  pub Keeps-append_tool_performance :
      (id : String) (r : ToolPerformanceRecord h)
      → Keeps (Extends id s0) (Fails outside) (append_tool_performance (append outside) id r)
  unfolding append_tool_performance Appends.append
  Keeps-append_tool_performance id r = Keeps-append outside id s0 _

  pub Keeps-append_profile_patch :
      (id : String) (r : ProfilePatchRecord h)
      → Keeps (Extends id s0) (Fails outside) (append_profile_patch (append outside) id r)
  unfolding append_profile_patch Appends.append
  Keeps-append_profile_patch id r = Keeps-append outside id s0 _

  pub Keeps-append_outcome :
      (id : String) (r : OutcomeRecord)
      → Keeps (Extends id s0) (Fails outside) (append_outcome (append outside) id r)
  unfolding append_outcome Appends.append
  Keeps-append_outcome id r = Keeps-append outside id s0 _

pub ruleset append_rules = (
  keeps_rules, Keeps-append_trigger, Keeps-append_model_decision, Keeps-append_trigger_intent,
  Keeps-append_deliberation, Keeps-append_tool_execution_graph, Keeps-append_execution_plan,
  Keeps-append_summary, Keeps-append_tool_node_checkpoint, Keeps-append_skill_input_validation,
  Keeps-append_kernel_event, Keeps-append_tool_call, Keeps-append_tool_result,
  Keeps-append_pending_approval, Keeps-append_approval_resolution, Keeps-append_delegation,
  Keeps-append_coordination_claim, Keeps-append_provider_usage, Keeps-append_provider_cache,
  Keeps-append_reflection, Keeps-append_policy_tuning, Keeps-append_strategy_preference,
  Keeps-append_tool_performance, Keeps-append_profile_patch, Keeps-append_outcome,
)
