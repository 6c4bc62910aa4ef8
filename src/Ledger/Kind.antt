-- ===== src/Ledger/Kind.antt =====
-- rain-engine-core/src/types.rs: `SessionRecordKind::as_str` and `parse`.
pub mod RoundTrip
use rain_engine.Prelude.{String, Option, none, some, str_eq, if◌then◌else◌}
use rain_engine.Types.Records.{SessionRecordKind}

unfoldable pub as_str : SessionRecordKind → String
as_str SessionRecordKind.trigger = "trigger"
as_str SessionRecordKind.trigger_intent = "trigger_intent"
as_str SessionRecordKind.kernel_event = "kernel_event"
as_str SessionRecordKind.model_decision = "model_decision"
as_str SessionRecordKind.deliberation = "deliberation"
as_str SessionRecordKind.tool_execution_graph = "tool_execution_graph"
as_str SessionRecordKind.tool_node_checkpoint = "tool_node_checkpoint"
as_str SessionRecordKind.skill_input_validation = "skill_input_validation"
as_str SessionRecordKind.tool_call = "tool_call"
as_str SessionRecordKind.tool_result = "tool_result"
as_str SessionRecordKind.pending_approval = "pending_approval"
as_str SessionRecordKind.approval_resolution = "approval_resolution"
as_str SessionRecordKind.delegation = "delegation"
as_str SessionRecordKind.coordination_claim = "coordination_claim"
as_str SessionRecordKind.provider_usage = "provider_usage"
as_str SessionRecordKind.provider_cache = "provider_cache"
as_str SessionRecordKind.reflection = "reflection"
as_str SessionRecordKind.policy_tuning = "policy_tuning"
as_str SessionRecordKind.strategy_preference = "strategy_preference"
as_str SessionRecordKind.tool_performance = "tool_performance"
as_str SessionRecordKind.profile_patch = "profile_patch"
as_str SessionRecordKind.execution_plan = "execution_plan"
as_str SessionRecordKind.summary = "summary"
as_str SessionRecordKind.outcome = "outcome"

-- One arm of the `match` on a text: the kind if the text is the arm's, else the arms below it.
abbrev pub arm :
    String → SessionRecordKind → String → Option SessionRecordKind → Option SessionRecordKind
arm text kind value rest = if str_eq value text then some kind else rest

unfoldable pub parse : String → Option SessionRecordKind
parse v = arm "trigger" SessionRecordKind.trigger v (
    arm "trigger_intent" SessionRecordKind.trigger_intent v (
      arm "kernel_event" SessionRecordKind.kernel_event v (
        arm "model_decision" SessionRecordKind.model_decision v (
          arm "deliberation" SessionRecordKind.deliberation v (
            arm "tool_execution_graph" SessionRecordKind.tool_execution_graph v (
              arm "tool_node_checkpoint" SessionRecordKind.tool_node_checkpoint v (
                arm "skill_input_validation" SessionRecordKind.skill_input_validation v (
                  arm "tool_call" SessionRecordKind.tool_call v (
                    arm "tool_result" SessionRecordKind.tool_result v (
                      arm "pending_approval" SessionRecordKind.pending_approval v (
                        arm "approval_resolution" SessionRecordKind.approval_resolution v (
                          arm "delegation" SessionRecordKind.delegation v (
                            arm "coordination_claim" SessionRecordKind.coordination_claim v (
                              arm "provider_usage" SessionRecordKind.provider_usage v (
                                arm "provider_cache" SessionRecordKind.provider_cache v (
                                  arm "reflection" SessionRecordKind.reflection v (
                                    arm "policy_tuning" SessionRecordKind.policy_tuning v (
                                      arm "strategy_preference"
                                        SessionRecordKind.strategy_preference v
                                        (arm "tool_performance" SessionRecordKind.tool_performance v
                                          (arm "profile_patch" SessionRecordKind.profile_patch v (
                                            arm "execution_plan" SessionRecordKind.execution_plan v
                                              (arm "summary" SessionRecordKind.summary v (
                                                arm "outcome" SessionRecordKind.outcome v
                                                  none)))))))))))))))))))))))
