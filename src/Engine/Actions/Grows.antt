-- ===== src/Engine/Actions/Grows.antt =====
-- rain-engine-core/src/engine.rs: what an action leaves of the memory store.
use rain_engine.Prelude.{ℕ, ◌+◌, String, false, Option, List, [], ◌∷◌}
use rain_engine.Host.{Host}
use rain_engine.Types.Ids.{ResumeToken, CorrelationId}
use rain_engine.Types.Actions.{AgentAction, DelegationTarget, DelegationTask}
use rain_engine.Types.Tools.{ToolResultRecord}
use rain_engine.Types.Events.{KernelEvent, KernelEventRecord}
use rain_engine.Types.Records.{StopReason}
use rain_engine.Types.Requests.{AgentContext}
use rain_engine.Store.{InMemoryMemoryStore}
use rain_engine.Tools.Execute.{BatchExecution}
use rain_engine.World.{Outside}
use rain_engine.World.Exec.{pure}
use rain_engine.Engine.Context.{AgentEngine}
use rain_engine.World.Grows.{Keeps, Fails, Extends}
use rain_engine.World.Appends.{append_rules}
use rain_engine.Prelude.{◌≡◌, sym}
use rain_engine.World.Grows.{Keeps-bind, Keeps-caught, Keeps-pure, Keeps-elim}
use rain_engine.World.Appends.{Keeps-append_tool_result}
use rain_engine.Tools.Execute.Grows.{Keeps-execute_planned_calls}
use rain_engine.Engine.Finish.Grows.{Keeps-finish, Keeps-suspend}
use rain_engine.Engine.Actions.{
  error_text, storage_failure, end_with, plan_action, record_search, memory_search, delegate,
  store_results, after_batch, execute_action,
}

module _ {h : Host} (outside : Outside h) (s0 : InMemoryMemoryStore h) (engine : AgentEngine h)
    (context : AgentContext h) (steps : ℕ) (emitted : List (KernelEventRecord h)) where
  Keeps-end_with :
      (reason : StopReason) (response detail : Option String) (token : Option ResumeToken)
      → Keeps
          (Extends context.session_id s0)
          (Fails outside)
          (end_with outside engine context steps emitted reason response detail token)
  Keeps-end_with reason response detail token = search (append_rules, Keeps-finish)

  Keeps-plan_action :
      (summary : String) (actions : List String) (confidence : h.F64)
      → Keeps
          (Extends context.session_id s0)
          (Fails outside)
          (plan_action outside engine context steps emitted summary actions confidence)
  unfolding plan_action
  Keeps-plan_action summary actions confidence = search append_rules

  Keeps-record_search :
      (happened : KernelEvent h) (source : String) (content : h.Value)
      → Keeps
          (Extends context.session_id s0)
          (Fails outside)
          (record_search outside engine context steps emitted happened source content)
  unfolding record_search
  Keeps-record_search happened source content = search append_rules depth 9

  Keeps-memory_search :
      (query : String) (limit : ℕ)
      → Keeps
          (Extends context.session_id s0)
          (Fails outside)
          (memory_search outside engine context steps emitted query limit)
  unfolding memory_search
  Keeps-memory_search query limit = search (append_rules, Keeps-record_search)

  Keeps-delegate :
      (target : DelegationTarget) (task : DelegationTask h) (id : CorrelationId)
      (token : ResumeToken)
      → Keeps
          (Extends context.session_id s0)
          (Fails outside)
          (delegate outside engine context steps emitted target task id token)
  unfolding delegate
  Keeps-delegate target task id token = search (append_rules, Keeps-finish) depth 9

  Keeps-store_results :
      (results : List (ToolResultRecord h))
      → Keeps
          (Extends context.session_id s0)
          (Fails outside)
          (store_results outside engine context steps emitted results)
  unfolding store_results
  Keeps-store_results [] = search append_rules
  Keeps-store_results (r ∷ results) =
      Keeps-bind _ _ (Keeps-caught _ (Keeps-append_tool_result outside s0 _ r)) λ stored.
        Keeps-elim stored _
          (λ e.
            pure (storage_failure context.metadata.trigger_id (steps + 1) (error_text e) emitted))
          (λ u. Keeps-store_results results) (λ e. Keeps-pure _)

  pub Keeps-after_batch :
      (batch : BatchExecution h)
      → Keeps
          (Extends context.session_id s0)
          (Fails outside)
          (after_batch outside engine context steps emitted batch)
  Keeps-after_batch (BatchExecution.executed batch) = Keeps-store_results batch.results
  Keeps-after_batch (BatchExecution.suspended reason calls token) =
      search (append_rules, Keeps-suspend)

  Keeps-execute_action :
      (action : AgentAction h)
      → Keeps
          (Extends context.session_id s0)
          (Fails outside)
          (execute_action outside engine context steps emitted action)
  unfolding execute_action
  Keeps-execute_action (AgentAction.plan s c f) = Keeps-plan_action s c f
  Keeps-execute_action (AgentAction.respond content) = search (append_rules, Keeps-end_with)
  Keeps-execute_action (AgentAction.yield reason) = search (append_rules, Keeps-end_with)
  Keeps-execute_action (AgentAction.memory_search q n) = Keeps-memory_search q n
  Keeps-execute_action (AgentAction.memory_archive c) = Keeps-record_search _ _ _
  Keeps-execute_action (AgentAction.continue reason) = Keeps-pure _
  Keeps-execute_action (AgentAction.suspend r c t) =
      Keeps-after_batch (BatchExecution.suspended r c t)
  Keeps-execute_action (AgentAction.call_skills calls) =
      Keeps-bind _ _ (Keeps-execute_planned_calls outside engine context s0 steps calls false)
        Keeps-after_batch
  Keeps-execute_action (AgentAction.delegate t k c r) = Keeps-delegate t k c r

module _ {h : Host} (outside : Outside h) (s0 : InMemoryMemoryStore h)
    (engine : AgentEngine h) where
  pub Keeps-action :
      (id : String) (context : AgentContext h) (steps : ℕ) (emitted : List (KernelEventRecord h))
      (action : AgentAction h)
      → context.session_id ≡ id
      → Keeps
          (Extends id s0)
          (Fails outside)
          (execute_action outside engine context steps emitted action)
  Keeps-action id context steps emitted action same =
      rw (sym same) (Keeps-execute_action outside s0 engine context steps emitted action)
