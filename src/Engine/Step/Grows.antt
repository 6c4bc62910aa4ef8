-- ===== src/Engine/Step/Grows.antt =====
-- rain-engine-core/src/engine.rs: what a step leaves of the memory store.
use rain_engine.Prelude.{ℕ, String, Option, none, some, List}
use rain_engine.Host.{Host}
use rain_engine.Types.Actions.{AgentAction, ExecutionPlanRecord, ModelDecisionRecord}
use rain_engine.Types.Tools.{Result, ok, err}
use rain_engine.Types.Events.{AgentTrigger, KernelEventRecord}
use rain_engine.Types.Provider.{ProviderDecision, ProviderError}
use rain_engine.Types.Requests.{AgentContext, EngineOutcome}
use rain_engine.World.{Outside, EngineError}
use rain_engine.Engine.Context.{AgentEngine}
use rain_engine.Store.{InMemoryMemoryStore}
use rain_engine.World.Grows.{Keeps, Fails, Extends}
use rain_engine.World.Appends.{append_rules}
use rain_engine.Prelude.{◌≡◌, sym}
use rain_engine.Engine.Finish.Grows.{
  Keeps-finish, Keeps-policy_outcome, Keeps-persist_provider_metadata,
}
use rain_engine.Engine.Actions.Grows.{Keeps-action}
use rain_engine.Engine.Step.{
  provider_fails, after_decision, act_on, on_answer, ask_model, step_or_ask, perform_single_step,
}

module _ {h : Host} (outside : Outside h) (s0 : InMemoryMemoryStore h) (engine : AgentEngine h)
    (steps : ℕ) (emitted : List (KernelEventRecord h)) (context : AgentContext h) where
  Keeps-provider_fails :
      (detail : String)
      → Keeps
          (Extends context.session_id s0)
          (Fails outside)
          (provider_fails outside engine steps emitted context detail)
  Keeps-provider_fails detail = search (append_rules, Keeps-finish)

  Keeps-after_decision :
      (decided : ModelDecisionRecord h) (context' : AgentContext h)
      (stored : Result (Unit {0}) EngineError)
      → context'.session_id ≡ context.session_id
      → Keeps
          (Extends context.session_id s0)
          (Fails outside)
          (after_decision outside engine steps emitted context' decided stored)
  Keeps-after_decision decided context' (ok u) same =
      Keeps-action outside s0 engine _ _ steps emitted decided.action same
  Keeps-after_decision decided context' (err e) same = search append_rules

  Keeps-act_on :
      (decision : ProviderDecision h)
      → Keeps
          (Extends context.session_id s0)
          (Fails outside)
          (act_on outside engine steps emitted context decision)
  unfolding act_on
  Keeps-act_on decision =
      search (append_rules, Keeps-persist_provider_metadata, Keeps-after_decision) depth 9

  Keeps-on_answer :
      (answer : Option (Result (ProviderDecision h) ProviderError))
      → Keeps
          (Extends context.session_id s0)
          (Fails outside)
          (on_answer outside engine steps emitted context answer)
  Keeps-on_answer (some (ok decision)) = Keeps-act_on decision
  Keeps-on_answer (some (err e)) = Keeps-provider_fails _
  Keeps-on_answer none = Keeps-provider_fails _

  Keeps-ask_model :
      (trigger : AgentTrigger h) (stop : Option EngineOutcome)
      → Keeps
          (Extends context.session_id s0)
          (Fails outside)
          (ask_model outside engine steps emitted context trigger stop)
  Keeps-ask_model trigger (some outcome) = search append_rules
  Keeps-ask_model trigger none = search (append_rules, Keeps-on_answer)

  Keeps-step_or_ask :
      (trigger : AgentTrigger h) (failures : ℕ)
      (planned : Option (AgentAction h × ExecutionPlanRecord h))
      → Keeps
          (Extends context.session_id s0)
          (Fails outside)
          (step_or_ask outside engine steps emitted context trigger failures planned)
  Keeps-step_or_ask trigger failures (some (action, plan)) = search (append_rules, Keeps-action)
  Keeps-step_or_ask trigger failures none =
      search (append_rules, Keeps-policy_outcome, Keeps-ask_model)

  pub Keeps-perform_single_step :
      (trigger : AgentTrigger h) (failures : ℕ)
      → Keeps
          (Extends context.session_id s0)
          (Fails outside)
          (perform_single_step outside engine steps emitted context trigger failures)
  unfolding perform_single_step
  Keeps-perform_single_step trigger failures = search (append_rules, Keeps-step_or_ask)

module _ {h : Host} (outside : Outside h) (s0 : InMemoryMemoryStore h)
    (engine : AgentEngine h) where
  pub Keeps-step :
      (id : String) (steps : ℕ) (emitted : List (KernelEventRecord h)) (context : AgentContext h)
      (trigger : AgentTrigger h) (failures : ℕ)
      → context.session_id ≡ id
      → Keeps
          (Extends id s0)
          (Fails outside)
          (perform_single_step outside engine steps emitted context trigger failures)
  Keeps-step id steps emitted context trigger failures same =
      rw (sym same)
        (Keeps-perform_single_step outside s0 engine steps emitted context trigger failures)
