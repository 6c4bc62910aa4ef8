-- ===== src/Engine/Continue/Grows.antt =====
-- rain-engine-core/src/engine.rs: what `advance_continue` leaves of the memory store.
use rain_engine.Prelude.{ℕ, String, Option, none, some, List, []}
use rain_engine.Host.{Host}
use rain_engine.Types.Tools.{ToolExecutionGraph, Result, ok, err}
use rain_engine.Types.Events.{TriggerRecord}
use rain_engine.Types.Records.{SessionRecord, SessionSnapshot}
use rain_engine.Types.Requests.{AgentContext, ContinueRequest}
use rain_engine.Store.{InMemoryMemoryStore}
use rain_engine.Tools.Execute.{BatchExecution}
use rain_engine.World.{Outside, EngineError}
use rain_engine.Engine.Context.{AgentEngine}
use rain_engine.Engine.Approvals.{with_results}
use rain_engine.World.Grows.{Keeps, Fails, Extends}
use rain_engine.World.Appends.{append_rules}
use rain_engine.Prelude.{◌≡◌, sym}
use rain_engine.Tools.Execute.Grows.{Keeps-execute_planned_calls}
use rain_engine.Engine.Approvals.Grows.{Keeps-stop_with, Keeps-append_results}
use rain_engine.Engine.Step.Grows.{Keeps-step}
use rain_engine.Engine.Continue.{
  on_finished_graph, continue_graph, continue_trigger, continue_loaded, advance_continue,
}
use rain_engine.Engine.Context.{new_context}

module _ {h : Host} (outside : Outside h) (s0 : InMemoryMemoryStore h) (engine : AgentEngine h)
    (context : AgentContext h) (active : TriggerRecord h) where
  Keeps-on_finished_graph :
      (step steps failures : ℕ) (batch : BatchExecution h)
      → Keeps
          (Extends context.session_id s0)
          (Fails outside)
          (on_finished_graph outside engine context active step steps failures batch)
  unfolding with_results
  Keeps-on_finished_graph step steps failures (BatchExecution.executed batch) =
      search (append_rules, Keeps-append_results, Keeps-step)
  Keeps-on_finished_graph step steps failures (BatchExecution.suspended r c t) =
      Keeps-stop_with outside s0 engine [] context _ step

  Keeps-continue_graph :
      (steps failures : ℕ) (graph : Option (ToolExecutionGraph h))
      → Keeps
          (Extends context.session_id s0)
          (Fails outside)
          (continue_graph outside engine context active steps failures graph)
  Keeps-continue_graph steps failures none = search (Keeps-step)
  Keeps-continue_graph steps failures (some graph) =
      search (append_rules, Keeps-execute_planned_calls, Keeps-on_finished_graph)

module _ {h : Host} (outside : Outside h) (s0 : InMemoryMemoryStore h)
    (engine : AgentEngine h) where
  Keeps-continue_in :
      (id : String) (context : AgentContext h) (active : TriggerRecord h) (steps failures : ℕ)
      (graph : Option (ToolExecutionGraph h))
      → context.session_id ≡ id
      → Keeps
          (Extends id s0)
          (Fails outside)
          (continue_graph outside engine context active steps failures graph)
  Keeps-continue_in id context active steps failures graph same =
      rw (sym same) (Keeps-continue_graph outside s0 engine context active steps failures graph)

  Keeps-continue_trigger :
      (request : ContinueRequest h) (records : List (SessionRecord h))
      (active : Option (TriggerRecord h))
      → Keeps
          (Extends request.session_id s0)
          (Fails outside)
          (continue_trigger outside engine request records active)
  unfolding new_context
  Keeps-continue_trigger request records none = search append_rules
  Keeps-continue_trigger request records (some active) = search (append_rules, Keeps-continue_in)

  Keeps-continue_loaded :
      (request : ContinueRequest h) (loaded : Result (SessionSnapshot h) EngineError)
      → Keeps
          (Extends request.session_id s0)
          (Fails outside)
          (continue_loaded outside engine request loaded)
  Keeps-continue_loaded request (ok snapshot) = Keeps-continue_trigger request _ _
  Keeps-continue_loaded request (err e) = search append_rules

  pub Keeps-advance_continue :
      (request : ContinueRequest h)
      → Keeps
          (Extends request.session_id s0)
          (Fails outside)
          (advance_continue outside engine request)
  unfolding advance_continue
  Keeps-advance_continue request = search (append_rules, Keeps-continue_loaded)
