-- ===== src/Engine/Step.antt =====
-- rain-engine-core/src/engine.rs: `perform_single_step`, the step that an active plan or the model
-- decides.
pub mod Grows
pub mod Stops
use rain_engine.Prelude.{
  ℕ, String, Option, none, some, List, [], ◌∷◌, map, filter_map, if◌then◌else◌,
}
use rain_engine.Prelude.Assoc
use rain_engine.Prelude.Assoc.{Assoc}
use rain_engine.Prelude.Text.{concat}
use rain_engine.Host.{Host}
use rain_engine.Types.Actions.{AgentAction, ExecutionPlanRecord, ModelDecisionRecord}
use rain_engine.Types.Tools.{SkillDefinition, SkillManifest, Result, ok, err}
use rain_engine.Types.Events.{AgentTrigger, KernelEventRecord}
use rain_engine.Types.Records.{SessionRecord, StopReason}
use rain_engine.Types.Provider.{ProviderRequest, ProviderDecision, ProviderError}
use rain_engine.Types.Requests.{AgentContext, AdvanceResult, EngineOutcome}
use rain_engine.Ledger.Views.{active_execution_plan}
use rain_engine.Engine.Contents.{build_provider_contents}
use rain_engine.Ledger.Views.Plans.{plan_step}
use rain_engine.Store.Appends.{append_execution_plan, append_model_decision}
use rain_engine.Kernel.{build_advance_result}
use rain_engine.Tools.Attempts.{RegisteredSkill, definition}
use rain_engine.Tools.Prepare.{has_scopes}
use rain_engine.World.{Outside, EngineError}
use rain_engine.World.Exec.{Exec, pure, ask, caught, ignored, ◌>>=◌, ◌>>◌, append, now}
use rain_engine.Engine.Context.{AgentEngine, to_snapshot, with_record}
use rain_engine.Engine.Finish.{finish, policy_outcome, persist_provider_metadata, with_metadata}
use rain_engine.Engine.Actions.{execute_action, error_text, storage_failure}

module _ {h : Host} where
  -- The skills whose scopes are all granted.
  unfoldable pub granted_skills : AgentEngine h → AgentContext h → List (SkillDefinition h)
  unfolding has_scopes definition
  granted_skills engine context =
      filter_map
        (λ (entry : String × RegisteredSkill h).
          if has_scopes entry.1.manifest.required_scopes context.granted_scopes
          then some (definition entry.1)
          else none)
        engine.skills

  -- The reason to avoid a skill, by its name; a later record replaces an earlier one.
  unfoldable pub preferences_from : Assoc String → List (SessionRecord h) → Assoc String
  preferences_from m [] = m
  preferences_from m (SessionRecord.strategy_preference p ∷ rs) =
      preferences_from (elim p.skill_name [ none ↦ m | some name ↦ Assoc.insert name p.reason m ])
        rs
  preferences_from m (_ ∷ rs) = preferences_from m rs

  abbrev warned : Option String → SkillDefinition h → SkillDefinition h
  warned none d = d
  warned (some reason) d =
      let manifest : SkillManifest h = d.manifest in
      record d {
        manifest = record manifest {
          description = concat (
              manifest.description
              ∷ " [CRITICAL WARNING: Avoid using this tool if possible. Reason: " ∷ reason ∷ "]"
              ∷ []);
        };
      }

  unfoldable pub available_skills : AgentEngine h → AgentContext h → List (SkillDefinition h)
  unfolding granted_skills preferences_from
  available_skills engine context =
      map
        (λ (d : SkillDefinition h).
          warned (Assoc.get d.manifest.name (preferences_from [] context.records)) d)
        (granted_skills engine context)

  unfoldable pub provider_request :
      Outside h → AgentEngine h → AgentContext h → AgentTrigger h → ℕ → ProviderRequest h
  unfolding available_skills to_snapshot build_provider_contents active_execution_plan
  provider_request outside engine context trigger steps_executed = record {
    trigger = trigger;
    context = to_snapshot context steps_executed;
    available_skills = available_skills engine context;
    config = context.metadata.provider;
    policy = context.metadata.policy;
    contents =
        build_provider_contents outside trigger context.records
          (active_execution_plan context.records);
  }

module _ {h : Host} (outside : Outside h) (engine : AgentEngine h) (steps_executed : ℕ)
    (emitted_events : List (KernelEventRecord h)) where
  -- The outcome that a provider fails.
  abbrev provider_fails : AgentContext h → String → Exec h (AdvanceResult h)
  provider_fails context detail = do
    outcome ←
        finish outside context StopReason.provider_failure none (some detail) steps_executed none
    pure (build_advance_result outcome emitted_events)

  abbrev after_decision :
      AgentContext h
      → ModelDecisionRecord h
      → Result (Unit {0}) EngineError
      → Exec h (AdvanceResult h)
  after_decision context decided (ok u) =
      execute_action outside engine (with_record (SessionRecord.model_decision decided) context)
        steps_executed emitted_events decided.action
  after_decision context decided (err e) =
      pure
        (storage_failure context.metadata.trigger_id steps_executed (error_text e) emitted_events)

  -- A decision is recorded before it is acted upon.
  unfoldable pub act_on : AgentContext h → ProviderDecision h → Exec h (AdvanceResult h)
  unfolding persist_provider_metadata append_model_decision append caught now execute_action
      storage_failure pure ◌>>=◌
  act_on context decision = do
    persist_provider_metadata outside context.session_id decision
    at ← now outside
    let decided : ModelDecisionRecord h = record {
      step = steps_executed;
      decided_at = at;
      action = decision.action;
    }
    stored ← caught (append_model_decision (append outside) context.session_id decided)
    after_decision (with_metadata decision context) decided stored

  abbrev on_answer :
      AgentContext h → Option (Result (ProviderDecision h) ProviderError) → Exec h (AdvanceResult h)
  on_answer context (some (ok decision)) = act_on context decision
  on_answer context (some (err e)) =
      provider_fails context (concat ("provider failure: " ∷ e.message ∷ []))
  on_answer context none = provider_fails context "provider timeout exceeded"

  -- The model is asked where no limit stops the advance.
  abbrev ask_model :
      AgentContext h → AgentTrigger h → Option EngineOutcome → Exec h (AdvanceResult h)
  ask_model context trigger (some outcome) = pure (build_advance_result outcome emitted_events)
  ask_model context trigger none = do
    answer ← ask λ n.
        if outside.is_late n
        then none
        else some (
            outside.generate_action n
              (provider_request outside engine context trigger steps_executed))
    on_answer context answer

  -- The next step of the active plan, or else the model's. A plan that cannot be stored is acted
  -- upon all the same.
  abbrev step_or_ask :
      AgentContext h
      → AgentTrigger h
      → ℕ
      → Option (AgentAction h × ExecutionPlanRecord h)
      → Exec h (AdvanceResult h)
  step_or_ask context trigger failure_steps (some (action, plan)) =
      ignored (append_execution_plan (append outside) context.session_id plan)
      >> execute_action outside engine context steps_executed emitted_events action
  step_or_ask context trigger failure_steps none = do
    outcome ← policy_outcome outside context steps_executed failure_steps
    ask_model context trigger outcome

  unfoldable pub perform_single_step :
      AgentContext h → AgentTrigger h → ℕ → Exec h (AdvanceResult h)
  unfolding plan_step append_execution_plan append ignored execute_action policy_outcome ask
      provider_request act_on finish build_advance_result pure ◌>>=◌ now
  perform_single_step context trigger failure_steps = do
    at ← now outside
    step_or_ask context trigger failure_steps (plan_step at context.records)
