-- ===== src/Types/State.antt =====
-- rain-engine-core/src/types.rs: the policies of an agent's profile, and the snapshot of its state.
use rain_engine.Prelude.{ℕ, ◌*◌, String, Bool, true, false, Option, List, [], ◌∷◌}
use rain_engine.Host.{Host}
use rain_engine.Types.Ids.{AgentId, GoalId, ArtifactId, ResourceRef, RelationshipEdge}
use rain_engine.Types.Policy.{EnginePolicy}
use rain_engine.Types.Actions.{ExecutionPlanRecord}
use rain_engine.Types.Tools.{ToolResultRecord}
use rain_engine.Types.Events.{
  GoalRecord, TaskRecord, ObservationRecord, ArtifactRecord, WakeRequestRecord,
}
use rain_engine.Types.Records.{SessionRecord}

pub record MemoryPolicy : Type 0 where
  pub max_recent_items : ℕ
  pub semantic_retrieval_limit : ℕ
  pub graph_hops : ℕ

abbrev pub default_memory : MemoryPolicy
default_memory = record { max_recent_items = 32; semantic_retrieval_limit = 8; graph_hops = 6 }

pub record EscalationPolicy : Type 0 where
  pub require_human_approval_scopes : List String
  pub max_auto_delegations : ℕ

abbrev pub default_escalation : EscalationPolicy
default_escalation = record {
  require_human_approval_scopes = "scope:human_approval" ∷ [];
  max_auto_delegations = 50;
}

pub record WakePolicy : Type 0 where
  pub allow_scheduled_wakes : Bool
  pub default_recheck_ms : ℕ
  pub max_pending_wakes : ℕ

abbrev pub default_wake : WakePolicy
default_wake = record {
  allow_scheduled_wakes = true;
  default_recheck_ms = 30 * 60 * 1000;
  max_pending_wakes = 8;
}

pub record ReviewPolicy : Type 0 where
  pub require_review_for_native_skills : Bool
  pub require_review_for_delegation : Bool
  pub reviewer_scopes : List String

abbrev pub default_review : ReviewPolicy
default_review = record {
  require_review_for_native_skills = false;
  require_review_for_delegation = true;
  reviewer_scopes = "scope:human_approval" ∷ [];
}

pub record AgentProfile : Type 0 where
  pub agent_id : AgentId
  pub role : String
  pub default_scopes : List String
  pub allowed_skill_names : List String
  pub goal_ids : List GoalId
  pub memory_policy : MemoryPolicy
  pub wake_policy : WakePolicy
  pub review_policy : ReviewPolicy
  pub escalation_policy : EscalationPolicy
  pub config_artifact : Option ArtifactId

module _ (h : Host) where
  pub record AgentStateSnapshot : Type 0 where
    pub agent_id : AgentId
    pub profile : Option AgentProfile
    pub goals : List GoalRecord
    pub tasks : List TaskRecord
    pub observations : List (ObservationRecord h)
    pub artifacts : List (ArtifactRecord h)
    pub resources : List ResourceRef
    pub relationships : List RelationshipEdge
    pub pending_wake : Option WakeRequestRecord

  pub record AgentContextSnapshot : Type 0 where
    pub session_id : String
    pub granted_scopes : List String
    pub trigger_id : String
    pub idempotency_key : Option String
    pub current_step : ℕ
    pub max_steps : ℕ
    pub history : List (SessionRecord h)
    pub prior_tool_results : List (ToolResultRecord h)
    pub session_cost_usd : h.F64
    pub state : AgentStateSnapshot
    pub policy : EnginePolicy h
    pub active_execution_plan : Option (ExecutionPlanRecord h)
