-- ===== src/Engine/Advance.antt =====
-- rain-engine-core/src/engine.rs: `advance_trigger`, and `advance` over it and `advance_continue`.
pub mod Grows
pub mod Replay
use rain_engine.Prelude.{◌+◌, String, true, Option, none, some, List, [], ◌∷◌, ◌++◌}
use rain_engine.Host.{Host}
use rain_engine.Types.Ids.{SystemTime}
use rain_engine.Types.Policy.{EnginePolicy, max_execution_time}
use rain_engine.Types.Tools.{Result, ok, err}
use rain_engine.Types.Events.{TriggerRecord, KernelEventRecord}
use rain_engine.Types.Improvement.{with_overlay}
use rain_engine.Types.Records.{SessionRecord, SessionSnapshot}
use rain_engine.Types.Requests.{
  AgentContext, AdvanceResult, AdvanceRequest, EngineOutcome, ProcessRequest,
}
use rain_engine.Ledger.Overlay.{active_policy_overlay}
use rain_engine.Ledger.Window.{current_step_count, current_consecutive_tool_failure_steps}
use rain_engine.Store.{load_session, find_outcome_by_idempotency_key}
use rain_engine.Store.Appends.{append_trigger, append_trigger_intent}
use rain_engine.Kernel.{derive_trigger_kernel_events, classify_trigger_intent, no_delta}
use rain_engine.World.{Outside, EngineError}
use rain_engine.World.Exec.{
  Exec, pure, caught, ignored, asks_world, ◌>>=◌, ◌>>◌, append, read_memory, now, instant_now,
  new_uuid,
}
use rain_engine.Engine.Context.{AgentEngine, new_context, effective_policy}
use rain_engine.Engine.Continue.{advance_continue}
use rain_engine.Engine.Planning.{prepare_history, refresh}
use rain_engine.Engine.Finish.{persist_kernel_events, with_events, get_projection, milliseconds}
use rain_engine.Engine.Actions.{storage_failure, fail_early}
use rain_engine.Engine.Approvals.{take_trigger}

module _ {h : Host} where
  abbrev pub replayed : EngineOutcome → AdvanceResult h
  replayed outcome = record {
    outcome = some (record outcome { idempotent_replay = true });
    emitted_events = [];
    state_delta = no_delta;
    wake_request = none;
  }

module _ {h : Host} (outside : Outside h) (engine : AgentEngine h) where
  -- From the history on: the context, the trigger's events, and what the trigger asks for.
  unfoldable pub process_trigger :
      ProcessRequest h → String → SystemTime → List (SessionRecord h) → Exec h (AdvanceResult h)
  unfolding new_context active_policy_overlay with_overlay max_execution_time instant_now now
      derive_trigger_kernel_events persist_kernel_events take_trigger current_step_count
      current_consecutive_tool_failure_steps ◌>>=◌
  process_trigger request trigger_id started_at records = do
    start ← instant_now outside
    let policy : EnginePolicy h = effective_policy request.policy records
    let context : AgentContext h =
        new_context request.session_id records request.granted_scopes trigger_id
          request.idempotency_key started_at (start + milliseconds (max_execution_time policy))
          policy request.provider
    at ← now outside
    let events : List (KernelEventRecord h) =
        derive_trigger_kernel_events outside at trigger_id request.trigger
    persist_kernel_events outside request.session_id events
    take_trigger outside engine events (with_events events context) request.trigger
        (current_step_count records) (current_consecutive_tool_failure_steps records)

  unfoldable pub classify_and_plan :
      ProcessRequest h → String → SystemTime → List (SessionRecord h) → Exec h (AdvanceResult h)
  unfolding append_trigger_intent append ignored now classify_trigger_intent refresh prepare_history
      process_trigger ◌>>=◌
  classify_and_plan request trigger_id started_at records = do
    at ← now outside
    ignored (
        append_trigger_intent (append outside) request.session_id (record {
          trigger_id = trigger_id;
          classified_at = at;
          intent = classify_trigger_intent outside request.trigger;
        }))
    classified ← refresh outside engine request.session_id records
    history ←
        prepare_history outside engine request.session_id request.policy request.trigger classified
    process_trigger request trigger_id started_at history

  abbrev on_loaded :
      ProcessRequest h
      → String
      → SystemTime
      → Result (SessionSnapshot h) EngineError
      → Exec h (AdvanceResult h)
  on_loaded request trigger_id started_at (ok snapshot) =
      classify_and_plan request trigger_id started_at snapshot.records
  on_loaded request trigger_id started_at (err e) = pure (fail_early trigger_id e)

  -- A cached projection stands for the session, with the trigger behind it.
  abbrev on_cached :
      ProcessRequest h → TriggerRecord h → Option (SessionSnapshot h) → Exec h (AdvanceResult h)
  on_cached request recorded (some cached) =
      classify_and_plan request recorded.trigger_id recorded.recorded_at
        (cached.records ++ SessionRecord.trigger recorded ∷ [])
  on_cached request recorded none = do
    loaded ← caught (read_memory outside λ s. load_session s request.session_id)
    on_loaded request recorded.trigger_id recorded.recorded_at loaded

  abbrev on_recorded :
      ProcessRequest h → TriggerRecord h → Result (Unit {0}) EngineError → Exec h (AdvanceResult h)
  on_recorded request recorded (ok u) = do
    cached ← asks_world (get_projection request.session_id)
    on_cached request recorded cached
  on_recorded request recorded (err e) = pure (fail_early recorded.trigger_id e)

  abbrev unless_replayed :
      ProcessRequest h → String → SystemTime → Option EngineOutcome → Exec h (AdvanceResult h)
  unless_replayed request trigger_id started_at (some outcome) = pure (replayed outcome)
  unless_replayed request trigger_id started_at none = do
    let recorded : TriggerRecord h = record {
      trigger_id = trigger_id;
      session_id = request.session_id;
      idempotency_key = request.idempotency_key;
      recorded_at = started_at;
      trigger = request.trigger;
      intent = none;
    }
    stored ← caught (append_trigger (append outside) recorded)
    on_recorded request recorded stored

  abbrev found_outcome : Result (Option EngineOutcome) EngineError → Option EngineOutcome
  found_outcome (ok found) = found
  found_outcome (err e) = none

  -- An outcome of before under the request's idempotency key. A store that fails has none.
  abbrev prior_outcome : String → Option String → Exec h (Option EngineOutcome)
  prior_outcome session_id none = pure none
  prior_outcome session_id (some key) = do
    found ← caught (read_memory outside λ s. find_outcome_by_idempotency_key s session_id key)
    pure (found_outcome found)

  unfoldable pub advance_trigger : ProcessRequest h → Exec h (AdvanceResult h)
  unfolding now new_uuid caught read_memory find_outcome_by_idempotency_key append_trigger append
      asks_world get_projection load_session classify_and_plan storage_failure pure ◌>>=◌
  advance_trigger request = do
    started_at ← now outside
    trigger_id ← new_uuid outside
    prior ← prior_outcome request.session_id request.idempotency_key
    unless_replayed request trigger_id started_at prior

  unfoldable pub advance : AdvanceRequest h → Exec h (AdvanceResult h)
  unfolding advance_trigger advance_continue
  advance (AdvanceRequest.trigger request) = advance_trigger request
  advance (AdvanceRequest.continue request) = advance_continue outside engine request

abbrev pub session_of : {h : Host} → AdvanceRequest h → String
session_of (AdvanceRequest.trigger request) = request.session_id
session_of (AdvanceRequest.continue request) = request.session_id
