-- ===== src/Examples/LedgerRuns.antt =====
-- The ledger's theorems at concrete ledgers.
use rain_engine.Prelude.{
  ℕ, suc, ◌≡◌, ◌≢◌, ◌↔◌, ◌≤◌, refl, none, some, List, [], ◌∷◌, ◌++◌, arith, any, str_eq, false,
}
use mathlib.Core.Option
use rain_engine.Types.Tools.{ToolExecutionGraph, ToolCallRecord, SkillBackendKind}
use rain_engine.Types.Actions.{
  AgentAction, ModelDecisionRecord, ExecutionPlanRecord, ContinueReason,
}
use rain_engine.Types.Improvement.{PolicyOverlayStatus, PolicyTuningAction}
use rain_engine.Types.Records.{SessionRecord, SessionRecordKind}
use rain_engine.Types.Improvement.{PolicyOverlay, with_overlay}
use rain_engine.Types.Policy.{EnginePolicy, default_engine_policy}
use rain_engine.Ledger.Overlay.Active.{SamePermissions, SafeLimits, with_overlay_limits}
use rain_engine.Ledger.Kind.{as_str, parse}
use rain_engine.Ledger.Kind.RoundTrip.{parse_iff}
use rain_engine.Ledger.Window.{
  active_trigger, current_step_count, current_consecutive_tool_failure_steps,
}
use rain_engine.Ledger.Window.Steps.{current_step_count-append, active_trigger-append}
use rain_engine.Ledger.Window.Failures.{failures-le-steps, resumed_failure_not_counted}
use rain_engine.Ledger.Views.{active_execution_plan}
use rain_engine.Ledger.Views.Plans.{
  advance_plan, plan_step, active_plan-advance, last_plan_step_repeats,
}
use rain_engine.Ledger.Overlay.{active_policy_overlay}
use rain_engine.Ledger.Overlay.Active.{active_overlay_sound, apply_activates, rolled_back_ids}
use rain_engine.Examples.Sample.{
  sample, hello, done_outcome, ping_call, failed_ping, overlay_of, tuning_of,
}

parse-iff_example :
    (parse "summary" ≡ some SessionRecordKind.summary)
    ↔ (as_str SessionRecordKind.summary ≡ "summary")
parse-iff_example = parse_iff "summary" SessionRecordKind.summary

abbrev decision : ModelDecisionRecord sample
decision = record { step = 0; decided_at = 2; action = AgentAction.call_skills (ping_call ∷ []) }

abbrev asked : List (SessionRecord sample)
asked = SessionRecord.trigger hello ∷ []

step_count_example :
    current_step_count (asked ++ SessionRecord.model_decision decision ∷ [])
    ≡ suc (current_step_count asked)
step_count_example = current_step_count-append asked (SessionRecord.model_decision decision)

active_trigger_example : active_trigger (asked ++ SessionRecord.outcome done_outcome ∷ []) ≡ none
active_trigger_example = active_trigger-append asked (SessionRecord.outcome done_outcome)

-- What the engine writes behind a decision that calls a skill that fails.
abbrev ping_graph : ToolExecutionGraph sample
ping_graph = record { graph_id = "t1:1"; trigger_id = "t1"; step = 1; created_at = 1; nodes = [] }

abbrev ping_called : ToolCallRecord sample
ping_called = record {
  call_id = "c1";
  step = 1;
  called_at = 2;
  skill_name = "ping";
  args = "{}";
  backend_kind = SkillBackendKind.native;
}

abbrev failed_step : List (SessionRecord sample)
failed_step =
    SessionRecord.tool_execution_graph ping_graph
    ∷ SessionRecord.tool_call ping_called
    ∷ SessionRecord.tool_result failed_ping
    ∷ []

failures-le-steps_example : current_consecutive_tool_failure_steps asked ≤ current_step_count asked
failures-le-steps_example = failures-le-steps asked

resumed_failure_example :
    current_consecutive_tool_failure_steps (
      ((asked ++ SessionRecord.outcome done_outcome ∷ [])
        ++ SessionRecord.trigger hello ∷ failed_step)
      ++ SessionRecord.model_decision decision ∷ failed_step)
    ≡ 0
resumed_failure_example =
    resumed_failure_not_counted asked done_outcome (SessionRecord.trigger hello ∷ failed_step)
      decision (ping_call ∷ []) failed_step refl refl (omega arith) refl refl

abbrev two_steps : ℕ → ExecutionPlanRecord sample
two_steps i = record {
  plan_id = "p";
  created_at = 1;
  objective = "greet";
  steps = AgentAction.continue ContinueReason.model_requested ∷ AgentAction.respond "hello" ∷ [];
  current_step_index = i;
  completed_at = none;
}

-- The first of the two steps.
first_step :
    plan_step 9 (SessionRecord.execution_plan (two_steps 0) ∷ [])
    ≡ some (AgentAction.continue ContinueReason.model_requested, two_steps 1)
unfolding plan_step advance_plan active_execution_plan
first_step = refl

active_plan_example :
    (active_execution_plan (
        SessionRecord.execution_plan (two_steps 0)
        ∷ SessionRecord.execution_plan (two_steps 1)
        ∷ [])
      ≡ some (two_steps 1))
    × (Option.map
          (λ (t : AgentAction sample × ExecutionPlanRecord sample). t.0)
          (plan_step 9 (
            SessionRecord.execution_plan (two_steps 0)
            ∷ SessionRecord.execution_plan (two_steps 1)
            ∷ []))
        ≡ some (AgentAction.respond "hello"))
unfolding active_execution_plan
active_plan_example =
    active_plan-advance 9 9 (SessionRecord.execution_plan (two_steps 0) ∷ []) (two_steps 0)
      (two_steps 1) (AgentAction.continue ContinueReason.model_requested) refl refl (omega arith)
      first_step

last_plan_step_example :
    (plan_step 9 (
        SessionRecord.execution_plan (two_steps 1)
        ∷ SessionRecord.execution_plan (advance_plan 8 (two_steps 1))
        ∷ [])
      ≡ plan_step 9 (SessionRecord.execution_plan (two_steps 1) ∷ []))
    × (plan_step 9 (SessionRecord.execution_plan (two_steps 1) ∷ []) ≢ none)
unfolding active_execution_plan
last_plan_step_example =
    last_plan_step_repeats 8 9 (SessionRecord.execution_plan (two_steps 1) ∷ []) (two_steps 1) refl
      refl

abbrev tuned : List (SessionRecord sample)
tuned =
    SessionRecord.policy_tuning
      (tuning_of "o1" PolicyOverlayStatus.applied PolicyTuningAction.applied)
    ∷ []

active_overlay_example :
    (PolicyOverlayStatus.applied ≡ PolicyOverlayStatus.applied)
    × (any (str_eq "o1") (rolled_back_ids tuned) ≡ false)
unfolding active_policy_overlay
active_overlay_example =
    active_overlay_sound tuned (overlay_of "o1" PolicyOverlayStatus.applied) refl

apply_activates_example :
    active_policy_overlay (
      tuned
      ++ SessionRecord.policy_tuning
          (tuning_of "o3" PolicyOverlayStatus.applied PolicyTuningAction.applied)
        ∷ [])
    ≡ some (overlay_of "o3" PolicyOverlayStatus.applied)
apply_activates_example =
    apply_activates tuned (tuning_of "o3" PolicyOverlayStatus.applied PolicyTuningAction.applied)
      refl refl refl

abbrev base_policy : EnginePolicy sample
base_policy = default_engine_policy sample

abbrev looser : PolicyOverlay sample
looser = overlay_of "o1" PolicyOverlayStatus.applied

with_overlay_limits_example :
    SamePermissions base_policy (with_overlay base_policy (some looser))
    × SafeLimits base_policy (with_overlay base_policy (some looser))
    × (looser.status ≢ PolicyOverlayStatus.applied
        → with_overlay base_policy (some looser) ≡ base_policy)
with_overlay_limits_example = with_overlay_limits base_policy looser
