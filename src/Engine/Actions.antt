-- ===== src/Engine/Actions.antt =====
-- rain-engine-core/src/engine.rs: `execute_action`, one case for each action.
pub mod Grows
use rain_engine.Prelude.{
  ℕ, ◌+◌, max, String, false, Option, none, some, List, [], ◌∷◌, ◌++◌, find_map, retain, take,
  if◌then◌else◌,
}
use rain_engine.Prelude.Text.{concat, contains}
use rain_engine.Host.{Host}
use rain_engine.Types.Ids.{SystemTime, ResumeToken, CorrelationId}
use rain_engine.Types.Actions.{AgentAction, DelegationTarget, DelegationTask}
use rain_engine.Types.Tools.{ToolResultRecord, Result, ok, err}
use rain_engine.Types.Events.{KernelEvent, KernelEventRecord, DelegationRecord}
use rain_engine.Types.Records.{StopReason, SessionRecord, StoredSessionRecord, DeliberationOutcome}
use rain_engine.Types.Requests.{AgentContext, AdvanceResult, RecordPage, first_page}
use rain_engine.Store.{list_records}
use rain_engine.Store.Appends.{
  append_deliberation, append_kernel_event, append_tool_result, append_delegation,
}
use rain_engine.Kernel.{
  derive_state_delta, extract_wake_request, build_advance_result, storage_failure_outcome, no_delta,
}
use rain_engine.Tools.Execute.{BatchExecution, execute_planned_calls}
use rain_engine.World.{Outside, EngineError}
use rain_engine.World.Exec.{Exec, pure, caught, ◌>>=◌, ◌>>◌, append, read_memory, now, new_uuid}
use rain_engine.Engine.Context.{AgentEngine, with_record}
use rain_engine.Engine.Finish.{finish, suspend}

-- A confidence of 0.7 is enough to act.
abbrev deliberation_outcome : (h : Host) → h.F64 → DeliberationOutcome
deliberation_outcome h confidence =
    if h.fleb (h.lit 7 1) confidence
    then DeliberationOutcome.ready_to_act
    else DeliberationOutcome.needs_refinement

-- The text of an error of the store, which is the only error that an append returns.
abbrev pub error_text : EngineError → String
error_text (EngineError.memory message) = message
error_text (EngineError.blob message) = message
error_text (EngineError.provider message) = message

module _ {h : Host} where
  -- An advance without an outcome.
  unfoldable pub in_progress : List (KernelEventRecord h) → AdvanceResult h
  unfolding derive_state_delta extract_wake_request
  in_progress events = record {
    outcome = none;
    emitted_events = events;
    state_delta = derive_state_delta events;
    wake_request = find_map extract_wake_request events;
  }

  -- An advance that the store made fail.
  unfoldable pub storage_failure :
      String → ℕ → String → List (KernelEventRecord h) → AdvanceResult h
  unfolding storage_failure_outcome
  storage_failure trigger_id steps_executed message events = record {
    outcome = some (storage_failure_outcome trigger_id steps_executed message);
    emitted_events = events;
    state_delta = no_delta;
    wake_request = none;
  }

  -- A failure before the first step.
  abbrev pub fail_early : String → EngineError → AdvanceResult h
  fail_early trigger_id e = storage_failure trigger_id 0 (error_text e) []

  abbrev listed_records : Result (RecordPage h) EngineError → List (StoredSessionRecord h)
  listed_records (ok page) = page.records
  listed_records (err e) = []

  -- The records whose text has the query, in lower case, and at most `limit` of them.
  unfoldable pub matching_records :
      Outside h → String → ℕ → List (StoredSessionRecord h) → List (StoredSessionRecord h)
  matching_records outside query limit records = take (max limit 1) (
      retain
        (λ (r : StoredSessionRecord h).
          contains (outside.to_lowercase (outside.debug_record r.entry))
            (outside.to_lowercase query))
        records)

module _ {h : Host} (outside : Outside h) (engine : AgentEngine h) (context : AgentContext h)
    (steps_executed : ℕ) (emitted_events : List (KernelEventRecord h)) where
  -- `finish`, and the result that has its outcome
  abbrev end_with :
      StopReason → Option String → Option String → Option ResumeToken → Exec h (AdvanceResult h)
  end_with reason response detail token = do
    outcome ← finish outside context reason response detail (steps_executed + 1) token
    pure (build_advance_result outcome emitted_events)

  unfoldable pub plan_action : String → List String → h.F64 → Exec h (AdvanceResult h)
  unfolding append_deliberation append ◌>>=◌ pure now new_uuid in_progress
  plan_action summary candidate_actions confidence = do
    id ← new_uuid outside
    at ← now outside
    append_deliberation (append outside) context.session_id (record {
      deliberation_id = id;
      trigger_id = context.metadata.trigger_id;
      step = steps_executed;
      created_at = at;
      summary = summary;
      candidate_actions = candidate_actions;
      confidence = confidence;
      outcome = deliberation_outcome h confidence;
    })
    pure (in_progress emitted_events)

  -- An observation of the engine's own.
  abbrev observed : String → String → SystemTime → String → h.Value → KernelEventRecord h
  observed event_id observation_id at source content = record {
    event_id = event_id;
    occurred_at = at;
    event = KernelEvent.observation_appended (record {
      observation_id = record { text = observation_id };
      recorded_at = at;
      source = source;
      content = content;
      attachment_ids = [];
      related_resources = [];
    });
  }

  -- An event of the action, then an observation of what it gave.
  unfoldable pub record_search : KernelEvent h → String → h.Value → Exec h (AdvanceResult h)
  unfolding append_kernel_event append ◌>>=◌ pure now new_uuid in_progress
  record_search happened source content = do
    id ← new_uuid outside
    at ← now outside
    let event : KernelEventRecord h = record { event_id = id; occurred_at = at; event = happened }
    append_kernel_event (append outside) context.session_id event
    event_id ← new_uuid outside
    seen_at ← now outside
    observation_id ← new_uuid outside
    let observation : KernelEventRecord h = observed event_id observation_id seen_at source content
    append_kernel_event (append outside) context.session_id observation
    pure (in_progress (emitted_events ++ event ∷ observation ∷ []))

  -- A page that cannot be read is an empty one.
  unfoldable pub memory_search : String → ℕ → Exec h (AdvanceResult h)
  unfolding record_search caught read_memory list_records first_page matching_records
  memory_search query limit = do
    page ← caught (read_memory outside λ s. list_records s (first_page context.session_id))
    record_search (KernelEvent.memory_searched query limit) "MemorySearch"
        (outside.to_value (matching_records outside query limit (listed_records page)))

  unfoldable pub delegate :
      DelegationTarget → DelegationTask h → CorrelationId → ResumeToken → Exec h (AdvanceResult h)
  unfolding append_delegation append_kernel_event append ◌>>=◌ pure now finish build_advance_result
  delegate target task correlation_id resume_token = do
    at ← now outside
    let delegation : DelegationRecord h = record {
      correlation_id = correlation_id;
      created_at = at;
      trigger_id = context.metadata.trigger_id;
      target = target;
      task = task;
      resume_token = resume_token;
    }
    append_delegation (append outside) context.session_id delegation
    let event : KernelEventRecord h = record {
      event_id = concat ("delegation-" ∷ correlation_id.text ∷ []);
      occurred_at = at;
      event = KernelEvent.delegation_requested delegation;
    }
    append_kernel_event (append outside) context.session_id event
    outcome ←
        finish outside
          (with_record (SessionRecord.kernel_event event)
            (with_record (SessionRecord.delegation delegation) context))
          StopReason.delegated none (some "delegated to downstream worker") (steps_executed + 1)
          (some resume_token)
    pure (build_advance_result outcome (emitted_events ++ event ∷ []))

  -- The results of a batch. A result that cannot be stored ends the advance.
  unfoldable pub store_results : List (ToolResultRecord h) → Exec h (AdvanceResult h)
  unfolding append_tool_result append caught ◌>>=◌ pure in_progress storage_failure
  store_results [] = pure (in_progress emitted_events)
  store_results (result ∷ results) =
      let rest : Exec h (AdvanceResult h) = store_results results in
      caught (append_tool_result (append outside) context.session_id result) >>= λ stored.
      elim stored [
        | ok u ↦ rest
        | err e ↦ pure (
            storage_failure context.metadata.trigger_id (steps_executed + 1) (error_text e)
              emitted_events)
      ]

  abbrev after_batch : BatchExecution h → Exec h (AdvanceResult h)
  after_batch (BatchExecution.executed batch) = store_results batch.results
  after_batch (BatchExecution.suspended reason pending_calls token) = do
    outcome ← suspend outside context steps_executed reason pending_calls token
    pure (build_advance_result outcome emitted_events)

  unfoldable pub execute_action : AgentAction h → Exec h (AdvanceResult h)
  unfolding plan_action memory_search delegate store_results execute_planned_calls suspend
  execute_action (AgentAction.plan summary candidate_actions confidence) =
      plan_action summary candidate_actions confidence
  execute_action (AgentAction.respond content) =
      end_with StopReason.responded (some content) none none
  execute_action (AgentAction.yield reason) = end_with StopReason.yielded none reason none
  execute_action (AgentAction.memory_search query limit) = memory_search query limit
  execute_action (AgentAction.memory_archive content) =
      record_search (KernelEvent.memory_archived content) "MemoryArchive"
        (outside.json_text "status" "archived successfully")
  execute_action (AgentAction.continue reason) = pure (in_progress emitted_events)
  execute_action (AgentAction.suspend reason pending_calls token) =
      after_batch (BatchExecution.suspended reason pending_calls token)
  execute_action (AgentAction.call_skills calls) =
      execute_planned_calls outside engine context steps_executed calls false >>= after_batch
  execute_action (AgentAction.delegate target task correlation_id token) =
      delegate target task correlation_id token
