-- ===== src/Types/Policy.antt =====
-- rain-engine-core/src/types.rs: `EnginePolicy`, `SelfImprovementPolicy`, `RetryPolicy`,
-- `ResourcePolicy` and the policy overlays. `usize` and `u64` are natural numbers.
use rain_engine.Prelude.{ℕ, String, Bool, true, false, Option, none, some, max, ◌*◌}
use rain_engine.Prelude.Int.{ℤ, pos}
use rain_engine.Host.{Host}

pub data SelfImprovementMode : Type 0 where
  advisory auto_with_guardrails shadow : SelfImprovementMode

module _ (h : Host) where
  pub record SelfImprovementPolicy : Type 0 where
    pub enabled : Bool
    pub mode : SelfImprovementMode
    pub evaluator_model : Option String
    pub reflection_interval_records : ℕ
    pub min_observations_before_tuning : ℕ
    pub max_policy_delta_percent : h.F64
    pub require_approval_for_scope_expansion : Bool
    pub rollback_on_regression : Bool

  pub record EnginePolicy : Type 0 where
    pub max_steps : ℕ
    pub max_execution_time_ms : ℕ
    pub provider_timeout_ms : ℕ
    pub max_tool_timeout_ms : ℕ
    pub max_consecutive_tool_failures : ℕ
    pub cache_threshold_tokens : ℕ
    pub max_cost_per_session : h.F64
    pub max_parallel_skill_calls : ℕ
    pub max_inline_attachment_bytes : ℕ
    pub allow_native_skills : Bool
    pub validate_tool_args : Bool
    pub max_ready_tool_nodes : ℕ
    pub max_tool_retries_per_step : ℕ
    pub enable_tool_dry_run : Bool
    pub self_improvement : SelfImprovementPolicy

  pub record RetryPolicy : Type 0 where
    pub max_attempts : ℕ
    pub initial_interval_ms : ℕ
    pub backoff_multiplier : h.F64
    pub max_interval_ms : ℕ

  pub record ToolRetryPolicy : Type 0 where
    pub policy : RetryPolicy

  pub record ResourcePolicy : Type 0 where
    pub timeout_ms : ℕ
    pub max_memory_bytes : ℕ
    pub max_fuel : Option ℕ
    pub priority_class : ℤ
    pub retry_policy : RetryPolicy
    pub dry_run_supported : Bool

  unfoldable pub default_self_improvement : SelfImprovementPolicy
  default_self_improvement = record {
    enabled = true;
    mode = auto_with_guardrails;
    evaluator_model = none;
    reflection_interval_records = 8;
    min_observations_before_tuning = 2;
    max_policy_delta_percent = h.lit 250 1;
    require_approval_for_scope_expansion = true;
    rollback_on_regression = true;
  }

  unfoldable pub default_engine_policy : EnginePolicy
  unfolding default_self_improvement
  default_engine_policy = record {
    max_steps = 16;
    max_execution_time_ms = 120000;
    provider_timeout_ms = 45000;
    max_tool_timeout_ms = 10000;
    max_consecutive_tool_failures = 20;
    cache_threshold_tokens = 32000;
    max_cost_per_session = h.lit 50 1;
    max_parallel_skill_calls = 4;
    max_inline_attachment_bytes = 512 * 1024;
    allow_native_skills = true;
    validate_tool_args = true;
    max_ready_tool_nodes = 64;
    max_tool_retries_per_step = 2;
    enable_tool_dry_run = false;
    self_improvement = default_self_improvement;
  }

  unfoldable pub default_retry_policy : RetryPolicy
  default_retry_policy = record {
    max_attempts = 3;
    initial_interval_ms = 250;
    backoff_multiplier = h.lit 20 1;
    max_interval_ms = 10000;
  }

  unfoldable pub default_for_tools : ResourcePolicy
  unfolding default_retry_policy
  default_for_tools = record {
    timeout_ms = 5000;
    max_memory_bytes = 8 * 1024 * 1024;
    max_fuel = some 10000000;
    priority_class = pos 0;
    retry_policy = default_retry_policy;
    dry_run_supported = false;
  }

module _ {h : Host} where
  -- `ResourcePolicy::validated`
  unfoldable pub validated : ResourcePolicy h → ResourcePolicy h
  validated p = record {
    timeout_ms = max p.timeout_ms 1;
    max_memory_bytes = max p.max_memory_bytes (64 * 1024);
    max_fuel = p.max_fuel;
    priority_class = p.priority_class;
    retry_policy = record {
      max_attempts = p.retry_policy.max_attempts;
      initial_interval_ms = max p.retry_policy.initial_interval_ms 1;
      backoff_multiplier = h.fmax p.retry_policy.backoff_multiplier (h.lit 10 1);
      max_interval_ms = max p.retry_policy.max_interval_ms 1;
    };
    dry_run_supported = p.dry_run_supported;
  }

  -- `EnginePolicy::max_execution_time` and `provider_timeout`, in milliseconds
  unfoldable pub max_execution_time : EnginePolicy h → ℕ
  max_execution_time p = max p.max_execution_time_ms 1

  unfoldable pub provider_timeout : EnginePolicy h → ℕ
  provider_timeout p = max p.provider_timeout_ms 1
