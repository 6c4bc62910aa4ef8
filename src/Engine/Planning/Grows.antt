-- ===== src/Engine/Planning/Grows.antt =====
-- rain-engine-core/src/engine.rs: what planning leaves of the memory store.
use rain_engine.Prelude.{ℕ, String, Option, none, some, List}
use rain_engine.Host.{Host}
use rain_engine.Types.Policy.{EnginePolicy}
use rain_engine.Types.Actions.{ExecutionPlan}
use rain_engine.Types.Events.{AgentTrigger, KernelEvent}
use rain_engine.Types.Records.{SessionRecord}
use rain_engine.Types.State.{AgentStateSnapshot}
use rain_engine.Store.{InMemoryMemoryStore}
use rain_engine.World.{Outside, PlannerOutput}
use rain_engine.Engine.Context.{AgentEngine}
use rain_engine.World.Grows.{Keeps, Fails, Extends}
use rain_engine.World.Appends.{append_rules}
use rain_engine.Engine.Planning.{
  refresh, append_planned, append_proposed, plan_ahead, append_summarized, summarize_history,
  plan_by, prepare_history,
}

module _ {h : Host} (outside : Outside h) (s0 : InMemoryMemoryStore h) (engine : AgentEngine h)
    (id : String) where
  pub Keeps-refresh :
      (records : List (SessionRecord h))
      → Keeps (Extends id s0) (Fails outside) (refresh outside engine id records)
  unfolding refresh
  Keeps-refresh records = search append_rules

  Keeps-append_planned :
      (event : KernelEvent h)
      → Keeps (Extends id s0) (Fails outside) (append_planned outside engine id event)
  unfolding append_planned
  Keeps-append_planned event = search append_rules

  Keeps-append_proposed :
      (plan : Option (ExecutionPlan h))
      → Keeps (Extends id s0) (Fails outside) (append_proposed outside engine id plan)
  Keeps-append_proposed none = search append_rules
  Keeps-append_proposed (some plan) = search append_rules

  Keeps-plan_ahead :
      (output : PlannerOutput h) (records : List (SessionRecord h))
      → Keeps (Extends id s0) (Fails outside) (plan_ahead outside engine id output records)
  unfolding plan_ahead
  Keeps-plan_ahead output records =
      search (append_rules, Keeps-append_planned, Keeps-append_proposed, Keeps-refresh)

  Keeps-append_summarized :
      (records : List (SessionRecord h)) (text : Option String)
      → Keeps (Extends id s0) (Fails outside) (append_summarized outside engine id records text)
  Keeps-append_summarized records none = search append_rules
  Keeps-append_summarized records (some content) = search (append_rules, Keeps-refresh)

  Keeps-summarize_history :
      (policy : EnginePolicy h) (trigger : AgentTrigger h) (records : List (SessionRecord h))
      → Keeps
          (Extends id s0)
          (Fails outside)
          (summarize_history outside engine id policy trigger records)
  unfolding summarize_history
  Keeps-summarize_history policy trigger records = search (append_rules, Keeps-append_summarized)

  Keeps-plan_by :
      (planner : Option (ℕ → AgentStateSnapshot h → AgentTrigger h → PlannerOutput h))
      (policy : EnginePolicy h) (trigger : AgentTrigger h) (records : List (SessionRecord h))
      → Keeps
          (Extends id s0)
          (Fails outside)
          (plan_by outside engine id planner policy trigger records)
  Keeps-plan_by none policy trigger records = search append_rules
  Keeps-plan_by (some planner) policy trigger records =
      search (append_rules, Keeps-plan_ahead, Keeps-summarize_history)

  pub Keeps-prepare_history :
      (policy : EnginePolicy h) (trigger : AgentTrigger h) (records : List (SessionRecord h))
      → Keeps
          (Extends id s0)
          (Fails outside)
          (prepare_history outside engine id policy trigger records)
  unfolding prepare_history
  Keeps-prepare_history policy trigger records = Keeps-plan_by engine.planner policy trigger records
