-- ===== src/Engine/Continue.antt =====
-- rain-engine-core/src/engine.rs: `advance_continue`.
pub mod Grows
use rain_engine.Prelude.{ℕ, ◌+◌, String, true, false, Option, none, some, List, [], map}
use rain_engine.Host.{Host}
use rain_engine.Types.Policy.{EnginePolicy, max_execution_time}
use rain_engine.Types.Actions.{PlannedSkillCall}
use rain_engine.Types.Tools.{ToolDependency, ToolNode, ToolExecutionGraph, Result, ok, err}
use rain_engine.Types.Events.{TriggerRecord}
use rain_engine.Types.Improvement.{with_overlay}
use rain_engine.Types.Records.{SessionRecord, SessionSnapshot, StopReason}
use rain_engine.Types.Requests.{AgentContext, AdvanceResult, ContinueRequest}
use rain_engine.Ledger.Overlay.{active_policy_overlay}
use rain_engine.Ledger.Window.{
  active_trigger, current_step_count, current_consecutive_tool_failure_steps,
  active_tool_execution_graph,
}
use rain_engine.Store.{load_session}
use rain_engine.Kernel.{no_delta}
use rain_engine.Tools.Execute.{BatchExecution, execute_planned_calls}
use rain_engine.World.{Outside, EngineError}
use rain_engine.World.Exec.{
  Exec, pure, caught, ◌>>=◌, ◌>>◌, read_memory, now, instant_now, new_uuid,
}
use rain_engine.Engine.Context.{AgentEngine, new_context, effective_policy}
use rain_engine.Engine.Finish.{milliseconds}
use rain_engine.Engine.Actions.{storage_failure, fail_early}
use rain_engine.Engine.Step.{perform_single_step}
use rain_engine.Engine.Approvals.{append_results, stop_with, with_results}

module _ {h : Host} where
  -- The calls of a graph, to be planned again.
  abbrev call_of : ToolNode h → PlannedSkillCall h
  call_of node = record {
    call_id = node.call_id;
    name = node.skill_name;
    args = node.args;
    priority = node.priority;
    depends_on = map (λ (d : ToolDependency). d.call_id) node.dependencies;
    retry_policy = node.retry_policy;
    dry_run = node.dry_run;
  }

module _ {h : Host} (outside : Outside h) (engine : AgentEngine h) where
  -- The next step of the active trigger, after the calls of a graph that is not finished.
  abbrev on_finished_graph :
      AgentContext h → TriggerRecord h → ℕ → ℕ → ℕ → BatchExecution h → Exec h (AdvanceResult h)
  on_finished_graph context active step steps_executed failure_steps
        (BatchExecution.executed batch) =
      do
        append_results outside engine [] context.session_id batch.results
        perform_single_step outside engine steps_executed [] (with_results batch.results context)
            active.trigger failure_steps
  on_finished_graph context active step steps_executed failure_steps
        (BatchExecution.suspended r c t) =
      stop_with outside engine [] context "checkpointed graph unexpectedly suspended" step

  abbrev continue_graph :
      AgentContext h
      → TriggerRecord h
      → ℕ
      → ℕ
      → Option (ToolExecutionGraph h)
      → Exec h (AdvanceResult h)
  continue_graph context active steps_executed failure_steps none =
      perform_single_step outside engine steps_executed [] context active.trigger failure_steps
  continue_graph context active steps_executed failure_steps (some graph) =
      execute_planned_calls outside engine context graph.step (map call_of graph.nodes) true
      >>= on_finished_graph context active graph.step steps_executed failure_steps

  abbrev nothing_to_continue : String → AdvanceResult h
  nothing_to_continue trigger_id = record {
    outcome = some (record {
      trigger_id = trigger_id;
      stop_reason = StopReason.yielded;
      response = none;
      detail = some "no active trigger to continue";
      steps_executed = 0;
      idempotent_replay = false;
      resume_token = none;
    });
    emitted_events = [];
    state_delta = no_delta;
    wake_request = none;
  }

  abbrev continue_trigger :
      ContinueRequest h
      → List (SessionRecord h)
      → Option (TriggerRecord h)
      → Exec h (AdvanceResult h)
  continue_trigger request records none = do id ← new_uuid outside; pure (nothing_to_continue id)
  continue_trigger request records (some active) = do
    started_at ← now outside
    start ← instant_now outside
    let policy : EnginePolicy h = effective_policy request.policy records
    continue_graph
        (new_context request.session_id records request.granted_scopes active.trigger_id
          active.idempotency_key started_at (start + milliseconds (max_execution_time policy))
          policy request.provider)
        active (current_step_count records) (current_consecutive_tool_failure_steps records)
        (active_tool_execution_graph records)

  abbrev continue_loaded :
      ContinueRequest h → Result (SessionSnapshot h) EngineError → Exec h (AdvanceResult h)
  continue_loaded request (ok snapshot) =
      continue_trigger request snapshot.records (active_trigger snapshot.records)
  continue_loaded request (err e) = pure (fail_early request.session_id e)

  unfoldable pub advance_continue : ContinueRequest h → Exec h (AdvanceResult h)
  unfolding caught read_memory load_session active_trigger current_step_count with_overlay
      new_context current_consecutive_tool_failure_steps active_tool_execution_graph
      execute_planned_calls append_results with_results perform_single_step active_policy_overlay
      max_execution_time now instant_now new_uuid storage_failure pure ◌>>=◌
  advance_continue request = do
    loaded ← caught (read_memory outside λ s. load_session s request.session_id)
    continue_loaded request loaded
