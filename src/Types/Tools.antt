-- ===== src/Types/Tools.antt =====
-- rain-engine-core/src/types.rs: skills, tool graphs, checkpoints, calls and results.
use rain_engine.Prelude.{ℕ, String, Bool, Option, List, min, max}
use rain_engine.Prelude.Int.{ℤ}
use rain_engine.Host.{Host}
use rain_engine.Types.Ids.{SystemTime}
use rain_engine.Types.Policy.{ToolRetryPolicy, ResourcePolicy, EnginePolicy, validated}

pub record ToolDependency : Type 0 where
  pub call_id : String

pub data ToolNodeStatus : Type 0 where
  queued validated_node started succeeded failed skipped timed_out : ToolNodeStatus

pub record ToolNodeCheckpointRecord : Type 0 where
  pub checkpoint_id : String
  pub graph_id : String
  pub call_id : String
  pub skill_name : String
  pub step : ℕ
  pub status : ToolNodeStatus
  pub attempt : ℕ
  pub occurred_at : SystemTime
  pub detail : Option String

pub record SkillInputValidationRecord : Type 0 where
  pub validation_id : String
  pub graph_id : String
  pub call_id : String
  pub skill_name : String
  pub validated_at : SystemTime
  pub valid : Bool
  pub errors : List String

pub data SkillCapability : Type 0 where
  key_value_read : List String → SkillCapability
  http_outbound : List String → SkillCapability
  structured_log : SkillCapability

pub data SkillBackendKind : Type 0 where
  wasm native : SkillBackendKind

pub data SkillFailureKind : Type 0 where
  permission_denied capability_denied invalid_arguments timeout : SkillFailureKind
  memory_limit_exceeded trap invalid_response internal : SkillFailureKind

pub record SkillFailure : Type 0 where
  pub kind : SkillFailureKind
  pub message : String

-- Rust's `Result`
pub data Result {ℓ κ} (A : Type ℓ) (E : Type κ) : Type (ℓ ⊔ κ) where
  ok : A → Result A E
  err : E → Result A E

abbrev pub is_ok {ℓ κ} : {A : Type ℓ} {E : Type κ} → Result A E → Bool
is_ok (ok a) = Bool.true
is_ok (err e) = Bool.false

abbrev pub is_err {ℓ κ} : {A : Type ℓ} {E : Type κ} → Result A E → Bool
is_err (ok a) = Bool.false
is_err (err e) = Bool.true

module _ (h : Host) where
  pub record ToolNode : Type 0 where
    pub call_id : String
    pub skill_name : String
    pub args : h.Value
    pub priority : ℤ
    pub dependencies : List ToolDependency
    pub retry_policy : ToolRetryPolicy h
    pub dry_run : Bool
    pub provider_order : ℕ

  pub record ToolExecutionGraph : Type 0 where
    pub graph_id : String
    pub trigger_id : String
    pub step : ℕ
    pub created_at : SystemTime
    pub nodes : List ToolNode

  pub record SkillManifest : Type 0 where
    pub name : String
    pub description : String
    pub input_schema : h.Value
    pub required_scopes : List String
    pub capability_grants : List SkillCapability
    pub resource_policy : ResourcePolicy h
    pub approval_required : Bool
    pub circuit_breaker_threshold : h.F64

  pub record SkillDefinition : Type 0 where
    pub manifest : SkillManifest
    pub executor_kind : String

  pub record ToolCallRecord : Type 0 where
    pub call_id : String
    pub step : ℕ
    pub called_at : SystemTime
    pub skill_name : String
    pub args : h.Value
    pub backend_kind : SkillBackendKind

  pub record ToolResultRecord : Type 0 where
    pub call_id : String
    pub finished_at : SystemTime
    pub skill_name : String
    pub output : Result h.Value SkillFailure

module _ {h : Host} where
  -- `SkillManifest::effective_resource_policy`
  unfoldable pub effective_resource_policy : SkillManifest h → EnginePolicy h → ResourcePolicy h
  unfolding validated
  effective_resource_policy m p =
      let v = validated m.resource_policy in
      record v { timeout_ms = min v.timeout_ms (max p.max_tool_timeout_ms 1) }
