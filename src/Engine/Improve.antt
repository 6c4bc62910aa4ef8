-- ===== src/Engine/Improve.antt =====
-- rain-engine-core/src/engine.rs: `run_self_improvement` and `reflection_observations`.
pub mod Grows
use rain_engine.Prelude.{
  String, Bool, true, false, Option, none, some, List, [], ◌∷◌, length, retain, ltb, if◌then◌else◌,
}
use rain_engine.Prelude.Text.{concat, show}
use rain_engine.Host.{Host}
use rain_engine.Types.Tools.{ToolResultRecord, is_err}
use rain_engine.Types.Improvement.{
  ReflectionRecord, ToolPerformanceRecord, StrategyPreferenceRecord, PolicyTuningRecord,
  ProfilePatchRecord,
}
use rain_engine.Types.Records.{OutcomeRecord, SessionRecord, StopReason}
use rain_engine.Types.Requests.{AgentContext}
use rain_engine.Types.State.{AgentContextSnapshot}
use rain_engine.Ledger.Views.{tool_results}
use rain_engine.Store.Appends.{
  append_reflection, append_tool_performance, append_strategy_preference, append_policy_tuning,
  append_profile_patch,
}
use rain_engine.Tools.Performance.{summarize_tool_performance}
use rain_engine.Tuning.{
  terminal_observation_count, maybe_rollback_regression, propose_policy_tuning,
}
use rain_engine.World.{Outside}
use rain_engine.World.Exec.{Exec, pure, ◌>>=◌, ◌>>◌, append, now, new_uuid}
use rain_engine.Engine.Context.{to_snapshot, with_record}

-- `{:?}` of a stop reason
abbrev pub stop_name : StopReason → String
stop_name StopReason.responded = "Responded"
stop_name StopReason.yielded = "Yielded"
stop_name StopReason.max_steps_reached = "MaxStepsReached"
stop_name StopReason.deadline_exceeded = "DeadlineExceeded"
stop_name StopReason.cancelled = "Cancelled"
stop_name StopReason.provider_failure = "ProviderFailure"
stop_name StopReason.storage_failure = "StorageFailure"
stop_name StopReason.policy_aborted = "PolicyAborted"
stop_name StopReason.suspended = "Suspended"
stop_name StopReason.delegated = "Delegated"

module _ {h : Host} (outside : Outside h) where
  unfoldable pub reflection_observations : AgentContextSnapshot h → OutcomeRecord → List String
  unfolding tool_results show
  reflection_observations snapshot outcome =
      let results = tool_results snapshot.history in
      concat ("terminal_stop_reason=" ∷ stop_name outcome.stop_reason ∷ [])
      ∷ concat ("steps_executed=" ∷ show outcome.steps_executed ∷ [])
      ∷ concat ("tool_results=" ∷ show (length results) ∷ [])
      ∷ concat (
          "failed_tool_results="
          ∷ show (length (retain (λ (r : ToolResultRecord h). is_err r.output) results))
          ∷ [])
      ∷ concat ("estimated_session_cost_usd=" ∷ outside.show_fixed 6 snapshot.session_cost_usd ∷ [])
      ∷ []

  -- `Uuid::new_v4()` behind a prefix
  unfoldable pub new_id : String → Exec h String
  unfolding ◌>>=◌ pure new_uuid
  new_id prefix = do id ← new_uuid outside; pure (concat (prefix ∷ id ∷ []))

module _ {h : Host} (outside : Outside h) (session_id : String) where
  unfoldable pub reflect :
      AgentContextSnapshot h → OutcomeRecord → AgentContext h → Exec h (AgentContext h)
  unfolding new_id reflection_observations append_reflection now
  reflect snapshot outcome context = do
    id ← new_id outside "reflection-"
    at ← now outside
    let reflection : ReflectionRecord h = record {
      reflection_id = id;
      created_at = at;
      trigger_id = snapshot.trigger_id;
      summary = concat (
          "Observed "
          ∷ stop_name outcome.stop_reason
          ∷ " after "
          ∷ show outcome.steps_executed
          ∷ " step(s); evaluating future policy and strategy."
          ∷ []);
      observations = reflection_observations outside snapshot outcome;
      confidence = h.lit 72 2;
    }
    append_reflection (append outside) session_id reflection
    pure (with_record (SessionRecord.reflection reflection) context)

  -- A skill that failed in more than half of its calls is to be avoided.
  unfoldable pub prefer : ToolPerformanceRecord h → AgentContext h → Exec h (AgentContext h)
  unfolding new_id append_strategy_preference now
  prefer performance context =
      if h.fltb (h.lit 5 1) performance.failure_rate
      then (do
        id ← new_id outside "strategy-"
        at ← now outside
        let preference : StrategyPreferenceRecord h = record {
          preference_id = id;
          created_at = at;
          skill_name = some performance.skill_name;
          preference = "avoid_when_alternatives_exist";
          reason = concat (
              performance.skill_name
              ∷ " failed in "
              ∷ outside.show_fixed 0 (h.fmul performance.failure_rate (h.lit 100 0))
              ∷ "% of recent calls"
              ∷ []);
          confidence = h.lit 68 2;
        }
        append_strategy_preference (append outside) session_id preference
        pure (with_record (SessionRecord.strategy_preference preference) context))
      else pure context

  unfoldable pub record_performances :
      List (ToolPerformanceRecord h) → AgentContext h → Exec h (AgentContext h)
  unfolding prefer append_tool_performance
  record_performances [] context = pure context
  record_performances (p ∷ ps) context = do
    append_tool_performance (append outside) session_id p
    context' ← prefer p (with_record (SessionRecord.tool_performance p) context)
    record_performances ps context'

  abbrev pub record_tuning : PolicyTuningRecord h → AgentContext h → Exec h (AgentContext h)
  record_tuning tuning context = do
    append_policy_tuning (append outside) session_id tuning
    pure (with_record (SessionRecord.policy_tuning tuning) context)

  -- The tuning, and the record that no privilege was expanded.
  abbrev pub tune : Option (PolicyTuningRecord h) → AgentContext h → Exec h (AgentContext h)
  tune none context = pure context
  tune (some tuning) context = do
    context' ← record_tuning tuning context
    id ← new_id outside "profile-patch-"
    at ← now outside
    let patch : ProfilePatchRecord h = record {
      patch_id = id;
      created_at = at;
      description = "No capability or scope expansion was applied automatically.";
      patch = outside.json_text "guardrail" "privilege_expansion_requires_approval";
      requires_approval = false;
      applied = true;
    }
    append_profile_patch (append outside) session_id patch
    pure (with_record (SessionRecord.profile_patch patch) context')

  abbrev pub roll_back_or_tune :
      AgentContextSnapshot h
      → OutcomeRecord
      → Option (PolicyTuningRecord h)
      → AgentContext h
      → Exec h (AgentContext h)
  roll_back_or_tune snapshot outcome (some rollback) context = record_tuning rollback context
  roll_back_or_tune snapshot outcome none context = do
    overlay_id ← new_id outside "overlay-"
    overlay_at ← now outside
    tuning_id ← new_id outside "tuning-"
    at ← now outside
    tune (propose_policy_tuning overlay_id overlay_at tuning_id at snapshot outcome) context

  -- With too few outcomes nothing is tuned.
  abbrev pub tune_if_observed :
      AgentContextSnapshot h → OutcomeRecord → AgentContext h → Bool → Exec h (AgentContext h)
  tune_if_observed snapshot outcome context true = pure context
  tune_if_observed snapshot outcome context false = do
    id ← new_id outside "tuning-"
    at ← now outside
    roll_back_or_tune snapshot outcome (maybe_rollback_regression id at snapshot outcome) context

  unfoldable pub improve :
      AgentContextSnapshot h → OutcomeRecord → AgentContext h → Exec h (AgentContext h)
  unfolding reflect record_performances summarize_tool_performance terminal_observation_count
      maybe_rollback_regression propose_policy_tuning append_policy_tuning append_profile_patch
  improve snapshot outcome context = do
    context1 ← reflect snapshot outcome context
    performances ← summarize_tool_performance outside snapshot.history
    context2 ← record_performances performances context1
    tune_if_observed snapshot outcome context2 (
        ltb (terminal_observation_count snapshot.history)
          snapshot.policy.self_improvement.min_observations_before_tuning)

module _ {h : Host} (outside : Outside h) where
  unfoldable pub run_self_improvement : AgentContext h → OutcomeRecord → Exec h (AgentContext h)
  unfolding improve to_snapshot
  run_self_improvement context outcome =
      let snapshot = to_snapshot context outcome.steps_executed in
      if snapshot.policy.self_improvement.enabled
      then improve outside context.session_id snapshot outcome context
      else pure context
