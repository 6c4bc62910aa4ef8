-- ===== src/Types/Improvement.antt =====
-- rain-engine-core/src/types.rs: policy overlays and the self-improvement records.
use rain_engine.Prelude.{ℕ, String, Bool, Option, none, some, List, max}
use rain_engine.Host.{Host}
use rain_engine.Types.Ids.{SystemTime}
use rain_engine.Types.Policy.{EnginePolicy}

pub record PolicyOverlayPatch : Type 0 where
  pub max_steps : Option ℕ
  pub max_execution_time_ms : Option ℕ
  pub provider_timeout_ms : Option ℕ
  pub max_tool_timeout_ms : Option ℕ
  pub max_parallel_skill_calls : Option ℕ

abbrev pub empty_patch : PolicyOverlayPatch
empty_patch = record {
  max_steps = none;
  max_execution_time_ms = none;
  provider_timeout_ms = none;
  max_tool_timeout_ms = none;
  max_parallel_skill_calls = none;
}

pub data PolicyOverlayStatus : Type 0 where
  proposed applied rolled_back rejected : PolicyOverlayStatus

pub data PolicyTuningAction : Type 0 where
  proposed applied rolled_back rejected_unsafe : PolicyTuningAction

abbrev pub is_applied : PolicyOverlayStatus → Bool
is_applied PolicyOverlayStatus.applied = Bool.true
is_applied _ = Bool.false

module _ (h : Host) where
  pub record PolicyOverlay : Type 0 where
    pub overlay_id : String
    pub created_at : SystemTime
    pub status : PolicyOverlayStatus
    pub reason : String
    pub evidence_window_records : ℕ
    pub patch : PolicyOverlayPatch
    pub confidence : h.F64
    pub rollback_condition : String

  pub record ReflectionRecord : Type 0 where
    pub reflection_id : String
    pub created_at : SystemTime
    pub trigger_id : String
    pub summary : String
    pub observations : List String
    pub confidence : h.F64

  pub record PolicyTuningRecord : Type 0 where
    pub tuning_id : String
    pub created_at : SystemTime
    pub overlay : PolicyOverlay
    pub action : PolicyTuningAction
    pub prior_policy : EnginePolicy h
    pub projected_policy : EnginePolicy h

  pub record StrategyPreferenceRecord : Type 0 where
    pub preference_id : String
    pub created_at : SystemTime
    pub skill_name : Option String
    pub preference : String
    pub reason : String
    pub confidence : h.F64

  pub record ToolPerformanceRecord : Type 0 where
    pub performance_id : String
    pub created_at : SystemTime
    pub skill_name : String
    pub backend_kind : String
    pub calls : ℕ
    pub successes : ℕ
    pub failures : ℕ
    pub failure_rate : h.F64

  pub record ProfilePatchRecord : Type 0 where
    pub patch_id : String
    pub created_at : SystemTime
    pub description : String
    pub patch : h.Value
    pub requires_approval : Bool
    pub applied : Bool

-- `if let Some(value) = patch.field { policy.field = value.max(1) }`
abbrev pub patched : Option ℕ → ℕ → ℕ
patched none old = old
patched (some value) old = max value 1

module _ {h : Host} where
  apply_patch : PolicyOverlayPatch → PolicyOverlayStatus → EnginePolicy h → EnginePolicy h
  apply_patch patch PolicyOverlayStatus.applied policy = record policy {
    max_steps = patched patch.max_steps policy.max_steps;
    max_execution_time_ms = patched patch.max_execution_time_ms policy.max_execution_time_ms;
    provider_timeout_ms = patched patch.provider_timeout_ms policy.provider_timeout_ms;
    max_tool_timeout_ms = patched patch.max_tool_timeout_ms policy.max_tool_timeout_ms;
    max_parallel_skill_calls =
        patched patch.max_parallel_skill_calls policy.max_parallel_skill_calls;
  }
  apply_patch patch _ policy = policy

  -- `PolicyOverlay::apply_to`
  unfoldable pub apply_to : PolicyOverlay h → EnginePolicy h → EnginePolicy h
  unfolding apply_patch
  apply_to overlay policy = apply_patch overlay.patch overlay.status policy

  -- `EnginePolicy::with_overlay`
  unfoldable pub with_overlay : EnginePolicy h → Option (PolicyOverlay h) → EnginePolicy h
  unfolding apply_to
  with_overlay policy none = policy
  with_overlay policy (some overlay) = apply_to overlay policy
