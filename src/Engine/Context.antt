-- ===== src/Engine/Context.antt =====
-- rain-engine-core/src/types.rs and engine.rs: the engine's parts, and the context of an advance.
use rain_engine.Prelude.{ℕ, String, Bool, List, map, Option, [], ◌∷◌, ◌++◌}
use Prim.Native.String.{compare}
use text.Mathlib.Text.{is_le}
use rain_engine.Prelude.Assoc
use rain_engine.Prelude.Assoc.{Assoc}
use rain_engine.Prelude.Sort.{sort_by}
use rain_engine.Host.{Host}
use rain_engine.Types.Ids.{SystemTime}
use rain_engine.Types.Policy.{EnginePolicy}
use rain_engine.Types.Improvement.{with_overlay}
use rain_engine.Types.Provider.{ProviderRequestConfig}
use rain_engine.Ledger.Overlay.{active_policy_overlay}
use rain_engine.Types.Events.{AgentTrigger}
use rain_engine.Types.Tools.{ToolResultRecord, SkillDefinition}
use rain_engine.Types.Records.{SessionRecord}
use rain_engine.Types.Requests.{AgentContext}
use rain_engine.Types.State.{AgentStateSnapshot, AgentContextSnapshot}
use rain_engine.Ledger.Views.{tool_results, active_execution_plan, total_estimated_cost_usd}
use rain_engine.Ledger.State.{agent_state}
use rain_engine.Tools.Attempts.{RegisteredSkill, definition}
use rain_engine.World.{PlannerOutput}

-- The model and the stores are outside. A planner answers by the number of the call.
pub record AgentEngine (h : Host) : Type 0 where
  pub skills : Assoc (RegisteredSkill h)
  pub planner : Option (ℕ → AgentStateSnapshot h → AgentTrigger h → PlannerOutput h)

module _ {h : Host} where
  -- The context of an advance over a snapshot.
  unfoldable pub new_context :
      String
      → List (SessionRecord h)
      → List String
      → String
      → Option String
      → SystemTime
      → ℕ
      → EnginePolicy h
      → ProviderRequestConfig h
      → AgentContext h
  unfolding tool_results
  new_context session_id records granted trigger_id key started_at deadline policy config = record {
    session_id = session_id;
    records = records;
    prior_tool_results = tool_results records;
    granted_scopes = granted;
    metadata = record {
      trigger_id = trigger_id;
      idempotency_key = key;
      started_at = started_at;
      deadline = deadline;
      policy = policy;
      provider = config;
    };
  }

  -- The policy of the request under the active overlay.
  abbrev pub effective_policy : EnginePolicy h → List (SessionRecord h) → EnginePolicy h
  effective_policy policy records = with_overlay policy (active_policy_overlay records)

  -- `AgentContext::to_snapshot`
  unfoldable pub to_snapshot : AgentContext h → ℕ → AgentContextSnapshot h
  unfolding active_execution_plan total_estimated_cost_usd agent_state
  to_snapshot context current_step = record {
    session_id = context.session_id;
    granted_scopes = context.granted_scopes;
    trigger_id = context.metadata.trigger_id;
    idempotency_key = context.metadata.idempotency_key;
    current_step = current_step;
    max_steps = context.metadata.policy.max_steps;
    history = context.records;
    prior_tool_results = context.prior_tool_results;
    session_cost_usd = total_estimated_cost_usd context.records;
    state = agent_state context.session_id context.records;
    policy = context.metadata.policy;
    active_execution_plan = active_execution_plan context.records;
  }

  -- `context.records.push(record)`
  abbrev pub with_record : SessionRecord h → AgentContext h → AgentContext h
  with_record r context = record context { records = context.records ++ r ∷ [] }

  -- A result among the records, and among the results before this step.
  abbrev pub with_result : ToolResultRecord h → AgentContext h → AgentContext h
  with_result r context = record context {
    records = context.records ++ SessionRecord.tool_result r ∷ [];
    prior_tool_results = context.prior_tool_results ++ r ∷ [];
  }

  abbrev by_skill_name : SkillDefinition h → SkillDefinition h → Bool
  by_skill_name a b = is_le (compare a.manifest.name b.manifest.name)

  -- `skill_definitions`, by their names
  unfoldable pub skill_definitions : AgentEngine h → List (SkillDefinition h)
  unfolding definition
  skill_definitions engine =
      sort_by by_skill_name
        (map (λ (entry : String × RegisteredSkill h). definition entry.1) engine.skills)

  -- `register_native_skill` and `register_wasm_skill`
  unfoldable pub register_skill : RegisteredSkill h → AgentEngine h → AgentEngine h
  register_skill skill engine = record engine {
    skills = Assoc.insert skill.manifest.name skill engine.skills;
  }
