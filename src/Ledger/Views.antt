-- ===== src/Ledger/Views.antt =====
-- rain-engine-core/src/types.rs: the projections of `SessionSnapshot` that pick records of one
-- kind, and `AgentContext::active_execution_plan`. They take the snapshot's `records`.
pub mod Plans
use rain_engine.Prelude.{
  String, Option, none, some, List, [], ◌∷◌, filter_map, rfind_map, str_eq, if◌then◌else◌,
}
use rain_engine.Prelude.Assoc
use rain_engine.Prelude.Assoc.{Assoc}
use rain_engine.Host.{Host}
use rain_engine.Types.Actions.{ExecutionPlanRecord}
use rain_engine.Types.Tools.{
  ToolExecutionGraph, ToolNodeCheckpointRecord, SkillInputValidationRecord, ToolResultRecord,
}
use rain_engine.Types.Events.{KernelEventRecord}
use rain_engine.Types.Improvement.{
  ReflectionRecord, PolicyTuningRecord, StrategyPreferenceRecord, ToolPerformanceRecord,
}
use rain_engine.Types.Records.{SessionRecord, ProviderCacheRecord, DeliberationRecord}
use rain_engine.Ledger.Window.{as_graph}

-- `iter().sum::<f64>()`
abbrev pub sum_f64 : (h : Host) → h.F64 → List h.F64 → h.F64
sum_f64 h acc [] = acc
sum_f64 h acc (x ∷ xs) = sum_f64 h (h.fadd acc x) xs

module _ {h : Host} where
  abbrev pub as_kernel_event : SessionRecord h → Option (KernelEventRecord h)
  as_kernel_event (SessionRecord.kernel_event e) = some e
  as_kernel_event _ = none

  unfoldable pub kernel_events : List (SessionRecord h) → List (KernelEventRecord h)
  kernel_events = filter_map as_kernel_event

  abbrev pub as_tool_result : SessionRecord h → Option (ToolResultRecord h)
  as_tool_result (SessionRecord.tool_result r) = some r
  as_tool_result _ = none

  unfoldable pub tool_results : List (SessionRecord h) → List (ToolResultRecord h)
  tool_results = filter_map as_tool_result

  abbrev pub as_usage_cost : SessionRecord h → Option h.F64
  as_usage_cost (SessionRecord.provider_usage u) = some u.estimated_cost_usd
  as_usage_cost _ = none

  unfoldable pub total_estimated_cost_usd : List (SessionRecord h) → h.F64
  total_estimated_cost_usd records = sum_f64 h (h.lit 0 0) (filter_map as_usage_cost records)

  abbrev pub cache_of : String → SessionRecord h → Option ProviderCacheRecord
  cache_of name (SessionRecord.provider_cache c) =
      if str_eq c.provider_name name then some c else none
  cache_of name _ = none

  unfoldable pub latest_cache_record : String → List (SessionRecord h) → Option ProviderCacheRecord
  latest_cache_record name = rfind_map (cache_of name)

  abbrev pub as_reflection : SessionRecord h → Option (ReflectionRecord h)
  as_reflection (SessionRecord.reflection r) = some r
  as_reflection _ = none

  unfoldable pub reflections : List (SessionRecord h) → List (ReflectionRecord h)
  reflections = filter_map as_reflection

  abbrev pub as_policy_tuning : SessionRecord h → Option (PolicyTuningRecord h)
  as_policy_tuning (SessionRecord.policy_tuning t) = some t
  as_policy_tuning _ = none

  unfoldable pub policy_tunings : List (SessionRecord h) → List (PolicyTuningRecord h)
  policy_tunings = filter_map as_policy_tuning

  abbrev pub as_strategy_preference : SessionRecord h → Option (StrategyPreferenceRecord h)
  as_strategy_preference (SessionRecord.strategy_preference p) = some p
  as_strategy_preference _ = none

  unfoldable pub strategy_preferences : List (SessionRecord h) → List (StrategyPreferenceRecord h)
  strategy_preferences = filter_map as_strategy_preference

  abbrev pub as_tool_performance : SessionRecord h → Option (ToolPerformanceRecord h)
  as_tool_performance (SessionRecord.tool_performance p) = some p
  as_tool_performance _ = none

  unfoldable pub tool_performance_records : List (SessionRecord h) → List (ToolPerformanceRecord h)
  tool_performance_records = filter_map as_tool_performance

  abbrev pub as_deliberation : SessionRecord h → Option (DeliberationRecord h)
  as_deliberation (SessionRecord.deliberation d) = some d
  as_deliberation _ = none

  unfoldable pub deliberations : List (SessionRecord h) → List (DeliberationRecord h)
  deliberations = filter_map as_deliberation

  unfoldable pub tool_execution_graphs : List (SessionRecord h) → List (ToolExecutionGraph h)
  tool_execution_graphs = filter_map as_graph

  abbrev pub as_checkpoint : SessionRecord h → Option ToolNodeCheckpointRecord
  as_checkpoint (SessionRecord.tool_node_checkpoint c) = some c
  as_checkpoint _ = none

  unfoldable pub tool_node_checkpoints : List (SessionRecord h) → List ToolNodeCheckpointRecord
  tool_node_checkpoints = filter_map as_checkpoint

  abbrev pub as_validation : SessionRecord h → Option SkillInputValidationRecord
  as_validation (SessionRecord.skill_input_validation v) = some v
  as_validation _ = none

  unfoldable pub skill_input_validations : List (SessionRecord h) → List SkillInputValidationRecord
  skill_input_validations = filter_map as_validation

  -- One round of the loop of `latest_trigger_intents`.
  unfoldable pub note_intent : Assoc String → SessionRecord h → Assoc String
  note_intent intents (SessionRecord.trigger t) = elim t.intent [
    | some intent ↦ Assoc.insert t.trigger_id intent intents
    | none ↦ intents
  ]
  note_intent intents (SessionRecord.trigger_intent i) = Assoc.insert i.trigger_id i.intent intents
  note_intent intents _ = intents

  unfoldable pub intents_from : Assoc String → List (SessionRecord h) → Assoc String
  intents_from intents [] = intents
  intents_from intents (r ∷ rs) = intents_from (note_intent intents r) rs

  unfoldable pub latest_trigger_intents : List (SessionRecord h) → Assoc String
  unfolding note_intent intents_from
  latest_trigger_intents records = intents_from [] records

  -- A plan that is not complete.
  abbrev pub open_plan : SessionRecord h → Option (ExecutionPlanRecord h)
  open_plan (SessionRecord.execution_plan p) = elim p.completed_at [ none ↦ some p | some t ↦ none ]
  open_plan _ = none

  unfoldable pub active_execution_plan : List (SessionRecord h) → Option (ExecutionPlanRecord h)
  active_execution_plan = rfind_map open_plan
