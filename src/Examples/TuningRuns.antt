-- ===== src/Examples/TuningRuns.antt =====
-- Runs of self-improvement.
use mathlib.Core.Option
use rain_engine.Prelude.{◌≡◌, ◌≢◌, refl, String, true, none, some, Option, List, [], ◌∷◌, ◌++◌}
use rain_engine.Types.Policy.{default_engine_policy, SelfImprovementMode, default_self_improvement}
use rain_engine.Types.Improvement.{
  PolicyOverlay, PolicyTuningRecord, with_overlay, PolicyOverlayStatus, PolicyTuningAction,
}
use rain_engine.Types.Records.{OutcomeRecord, StopReason, SessionRecord}
use rain_engine.Types.State.{AgentContextSnapshot}
use rain_engine.Ledger.State.{agent_state}
use rain_engine.Ledger.Overlay.{active_policy_overlay}
use rain_engine.Tuning.{propose_policy_tuning, maybe_rollback_regression, rollback_of}
use rain_engine.Tuning.Effects.{
  proposal_activates, cost_proposal_changes_nothing, regression_ends_overlay,
}
use rain_engine.Examples.Sample.{sample, done_outcome, overlay_of, tuning_of}

abbrev snapshot_of : SelfImprovementMode → List (SessionRecord sample) → AgentContextSnapshot sample
snapshot_of mode history = record {
  session_id = "s";
  granted_scopes = [];
  trigger_id = "t1";
  idempotency_key = none;
  current_step = 1;
  max_steps = 8;
  history = history;
  prior_tool_results = [];
  session_cost_usd = 0;
  state = agent_state "s" [];
  policy = record (default_engine_policy sample) {
    self_improvement = record (default_self_improvement sample) {
      mode = mode;
      rollback_on_regression = true;
    };
  };
  active_execution_plan = none;
}

abbrev automatic : AgentContextSnapshot sample
automatic = snapshot_of SelfImprovementMode.auto_with_guardrails []

abbrev ended : StopReason → Option String → OutcomeRecord
ended reason detail = record done_outcome { stop_reason = reason; detail = detail }

abbrev more_steps : PolicyTuningRecord sample
more_steps =
    elim (propose_policy_tuning "o1" 5 "u1" 6 automatic (ended StopReason.max_steps_reached none)) [
      | none ↦ tuning_of "o1" PolicyOverlayStatus.applied PolicyTuningAction.applied
      | some t ↦ t
    ]

proposal_activates_example :
    (active_policy_overlay ([] ++ SessionRecord.policy_tuning more_steps ∷ [])
      ≡ some more_steps.overlay)
    × (more_steps.projected_policy
        ≡ with_overlay automatic.policy
            (active_policy_overlay ([] ++ SessionRecord.policy_tuning more_steps ∷ [])))
unfolding propose_policy_tuning
proposal_activates_example =
    proposal_activates "o1" 5 "u1" 6 automatic (ended StopReason.max_steps_reached none) more_steps
      refl refl refl [] refl

abbrev too_costly : OutcomeRecord
too_costly = ended StopReason.policy_aborted (some "session cost limit reached")

abbrev blocked : PolicyTuningRecord sample
blocked = elim (propose_policy_tuning "o1" 5 "u1" 6 automatic too_costly) [
  | none ↦ tuning_of "o1" PolicyOverlayStatus.applied PolicyTuningAction.applied
  | some t ↦ t
]

cost_proposal_changes_nothing_example :
    (blocked.projected_policy ≡ automatic.policy)
    × (active_policy_overlay ([] ++ SessionRecord.policy_tuning blocked ∷ [])
        ≡ active_policy_overlay [])
unfolding propose_policy_tuning
cost_proposal_changes_nothing_example =
    cost_proposal_changes_nothing "o1" 5 "u1" 6 automatic too_costly blocked refl refl []

abbrev tuned : AgentContextSnapshot sample
tuned = snapshot_of SelfImprovementMode.advisory (
    SessionRecord.policy_tuning
      (tuning_of "o1" PolicyOverlayStatus.applied PolicyTuningAction.applied)
    ∷ [])

regression_ends_overlay_example :
    let t = rollback_of "u1" 6 tuned (overlay_of "o1" PolicyOverlayStatus.applied) in
    (maybe_rollback_regression "u1" 6 tuned (ended StopReason.deadline_exceeded none) ≡ some t)
    × (Option.map
          (λ (o : PolicyOverlay sample). o.overlay_id)
          (active_policy_overlay (tuned.history ++ SessionRecord.policy_tuning t ∷ []))
        ≢ some "o1")
unfolding active_policy_overlay
regression_ends_overlay_example =
    regression_ends_overlay "u1" 6 tuned (ended StopReason.deadline_exceeded none)
      (overlay_of "o1" PolicyOverlayStatus.applied) refl refl refl
