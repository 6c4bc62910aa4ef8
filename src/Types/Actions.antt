-- ===== src/Types/Actions.antt =====
-- rain-engine-core/src/types.rs: what a model may decide (`AgentAction`), and execution plans.
use rain_engine.Prelude.{ℕ, String, Bool, Option, List}
use rain_engine.Prelude.Int.{ℤ}
use rain_engine.Host.{Host}
use rain_engine.Types.Ids.{SystemTime, ResumeToken, CorrelationId}
use rain_engine.Types.Policy.{ToolRetryPolicy}

pub data ApprovalDecision : Type 0 where
  approved rejected : ApprovalDecision

pub data ContinueReason : Type 0 where
  tool_result_appended model_requested : ContinueReason

pub data SuspendReason : Type 0 where
  human_approval_required : List String → SuspendReason
  provider_requested : String → SuspendReason

pub record DelegationTarget : Type 0 where
  pub stream : String
  pub worker : Option String

module _ (h : Host) where
  pub record DelegationTask : Type 0 where
    pub task_type : String
    pub payload : h.Value

  pub record PlannedSkillCall : Type 0 where
    pub call_id : String
    pub name : String
    pub args : h.Value
    pub priority : ℤ
    pub depends_on : List String
    pub retry_policy : ToolRetryPolicy h
    pub dry_run : Bool

  pub data AgentAction : Type 0 where
    -- summary, candidate actions, confidence
    plan : String → List String → h.F64 → AgentAction
    respond : String → AgentAction
    call_skills : List PlannedSkillCall → AgentAction
    continue : ContinueReason → AgentAction
    yield : Option String → AgentAction
    -- query, limit
    memory_search : String → ℕ → AgentAction
    memory_archive : String → AgentAction
    suspend : SuspendReason → List PlannedSkillCall → ResumeToken → AgentAction
    delegate : DelegationTarget → DelegationTask → CorrelationId → ResumeToken → AgentAction

  pub record ExecutionPlan : Type 0 where
    pub objective : String
    pub steps : List AgentAction

  pub record ExecutionPlanRecord : Type 0 where
    pub plan_id : String
    pub created_at : SystemTime
    pub objective : String
    pub steps : List AgentAction
    pub current_step_index : ℕ
    pub completed_at : Option SystemTime

  pub record ModelDecisionRecord : Type 0 where
    pub step : ℕ
    pub decided_at : SystemTime
    pub action : AgentAction
