-- ===== src/Engine/Planning.antt =====
-- rain-engine-core/src/engine.rs: the planner's part of `advance_trigger`, and `summarize_history`.
pub mod Grows
use rain_engine.Prelude.{
  ℕ, String, Bool, true, false, ◌&&◌, not, Option, none, some, List, [], ◌∷◌, any, length, ltb, map,
  if◌then◌else◌,
}
use rain_engine.Prelude.Text.{concat, join}
use rain_engine.Host.{Host}
use rain_engine.Types.Policy.{EnginePolicy}
use rain_engine.Types.Actions.{AgentAction, ExecutionPlan}
use rain_engine.Types.Tools.{Result, ok, err}
use rain_engine.Types.Events.{AgentTrigger, KernelEvent}
use rain_engine.Types.Records.{SessionRecord, SessionSnapshot}
use rain_engine.Types.Provider.{
  ProviderRequest, ProviderDecision, ProviderError, ProviderRole, ProviderContentPart,
}
use rain_engine.Types.State.{AgentStateSnapshot}
use rain_engine.Ledger.Views.{tool_results, active_execution_plan}
use rain_engine.Ledger.State.{agent_state}
use rain_engine.Store.{load_session}
use rain_engine.Store.Appends.{append_kernel_event, append_execution_plan, append_summary}
use rain_engine.Tools.Schema.{is_some}
use rain_engine.Tools.Attempts.{definition}
use rain_engine.Tools.Prepare.{is_empty}
use rain_engine.World.{Outside, EngineError, PlannerOutput}
use rain_engine.World.Exec.{
  Exec, pure, ask, caught, ignored, each, ◌>>=◌, ◌>>◌, append, read_memory, now, new_uuid,
}
use rain_engine.Engine.Context.{AgentEngine, skill_definitions}

-- Planning and summarising, before the trigger is acted upon. What the store refuses here is ignored.
module _ {h : Host} (outside : Outside h) (engine : AgentEngine h) (session_id : String) where
  abbrev refreshed :
      List (SessionRecord h) → Result (SessionSnapshot h) EngineError → List (SessionRecord h)
  refreshed records (ok snapshot) = snapshot.records
  refreshed records (err e) = records

  -- The records of the session, or those at hand where they cannot be read.
  unfoldable pub refresh : List (SessionRecord h) → Exec h (List (SessionRecord h))
  unfolding caught read_memory load_session ◌>>=◌ pure
  refresh records = do
    loaded ← caught (read_memory outside λ s. load_session s session_id)
    pure (refreshed records loaded)

  unfoldable pub append_planned : KernelEvent h → Exec h Unit
  unfolding ignored append_kernel_event append ◌>>=◌ now new_uuid
  append_planned event = do
    id ← new_uuid outside
    at ← now outside
    ignored (
        append_kernel_event (append outside) session_id
          (record { event_id = id; occurred_at = at; event = event }))

  abbrev append_proposed : Option (ExecutionPlan h) → Exec h Unit
  append_proposed none = pure tt
  append_proposed (some plan) = do
    id ← new_uuid outside
    at ← now outside
    ignored (
        append_execution_plan (append outside) session_id (record {
          plan_id = concat ("plan-" ∷ id ∷ []);
          created_at = at;
          objective = plan.objective;
          steps = plan.steps;
          current_step_index = 0;
          completed_at = none;
        }))

  abbrev nothing_planned : PlannerOutput h → Bool
  nothing_planned output = is_empty output.events && not (is_some output.proposed_plan)

  unfoldable pub plan_ahead :
      PlannerOutput h → List (SessionRecord h) → Exec h (List (SessionRecord h))
  unfolding append_planned append_execution_plan each refresh new_uuid
  plan_ahead output records = do
    each append_planned output.events
    append_proposed output.proposed_plan
    (if nothing_planned output then pure records else refresh records)

  abbrev is_summary : SessionRecord h → Bool
  is_summary (SessionRecord.summary s) = true
  is_summary _ = false

  abbrev summary_prompt : List (SessionRecord h) → String
  summary_prompt records = concat (
      "Summarize the following conversation history concisely while preserving all key decisions, facts, and outcomes:\n\n"
      ∷ join "\n" (map outside.debug_record records)
      ∷ [])

  unfoldable pub summary_request :
      EnginePolicy h → AgentTrigger h → List (SessionRecord h) → ProviderRequest h
  unfolding tool_results agent_state active_execution_plan definition
  summary_request policy trigger records = record {
    trigger = trigger;
    context = record {
      session_id = session_id;
      granted_scopes = [];
      trigger_id = "internal";
      idempotency_key = none;
      current_step = 0;
      max_steps = 0;
      history = records;
      prior_tool_results = tool_results records;
      session_cost_usd = h.lit 0 0;
      state = agent_state session_id records;
      policy = policy;
      active_execution_plan = active_execution_plan records;
    };
    available_skills = skill_definitions engine;
    config = record { model = none; temperature = some (h.lit 0 0); max_tokens = some 500 };
    policy = policy;
    contents =
        record {
          role = ProviderRole.user;
          parts = ProviderContentPart.text (summary_prompt records) ∷ [];
        }
        ∷ [];
  }

  -- The text of a summary, where the model responds.
  abbrev summary_text : Result (ProviderDecision h) ProviderError → Option String
  summary_text (err e) = none
  summary_text (ok decision) = elim decision.action [
    | AgentAction.respond content ↦ some content
    | _ ↦ none
  ]

  abbrev append_summarized :
      List (SessionRecord h) → Option String → Exec h (List (SessionRecord h))
  append_summarized records none = pure records
  append_summarized records (some content) = do
    id ← new_uuid outside
    at ← now outside
    ignored (
        append_summary (append outside) session_id (record {
          summary_id = concat ("summary-" ∷ id ∷ []);
          created_at = at;
          content = content;
          original_sequence_range = (0, length records);
        }))
    refresh records

  -- A history of more than ten records without a summary is summarised.
  unfoldable pub summarize_history :
      EnginePolicy h → AgentTrigger h → List (SessionRecord h) → Exec h (List (SessionRecord h))
  unfolding ask summary_request append_summary refresh new_uuid
  summarize_history policy trigger records =
      if ltb 10 (length records) && not (any is_summary records)
      then (do
        answer ← ask λ n. outside.generate_action n (summary_request policy trigger records)
        append_summarized records (summary_text answer))
      else pure records

  abbrev plan_by :
      Option (ℕ → AgentStateSnapshot h → AgentTrigger h → PlannerOutput h)
      → EnginePolicy h
      → AgentTrigger h
      → List (SessionRecord h)
      → Exec h (List (SessionRecord h))
  plan_by none policy trigger records = pure records
  plan_by (some planner) policy trigger records = do
    output ← ask λ n. planner n (agent_state session_id records) trigger
    planned ← plan_ahead output records
    summarize_history policy trigger planned

  unfoldable pub prepare_history :
      EnginePolicy h → AgentTrigger h → List (SessionRecord h) → Exec h (List (SessionRecord h))
  unfolding plan_ahead summarize_history agent_state
  prepare_history = plan_by engine.planner
