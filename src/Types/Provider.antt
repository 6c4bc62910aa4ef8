-- ===== src/Types/Provider.antt =====
-- rain-engine-core/src/types.rs and llm.rs: what a model is asked, and what it answers.
use rain_engine.Prelude.{ℕ, String, Bool, false, Option, none, List}
use rain_engine.Host.{Host}
use rain_engine.Types.Policy.{EnginePolicy}
use rain_engine.Types.Actions.{AgentAction}
use rain_engine.Types.Attachments.{MultimodalPayload, AttachmentRef}
use rain_engine.Types.Tools.{SkillDefinition, ToolResultRecord}
use rain_engine.Types.Events.{AgentTrigger}
use rain_engine.Types.Records.{ProviderUsageRecord, ProviderCacheRecord}
use rain_engine.Types.State.{AgentContextSnapshot}

pub data ProviderErrorKind : Type 0 where
  timeout transport rate_limited invalid_response configuration internal : ProviderErrorKind

pub data ProviderRole : Type 0 where
  system user assistant tool : ProviderRole

pub record ProviderError : Type 0 where
  pub kind : ProviderErrorKind
  pub message : String
  pub retryable : Bool

-- `ProviderError::internal`
unfoldable pub internal_error : String → ProviderError
internal_error message = record {
  kind = ProviderErrorKind.internal;
  message = message;
  retryable = false;
}

module _ (h : Host) where
  -- The temperature is an `f32`.
  pub record ProviderRequestConfig : Type 0 where
    pub model : Option String
    pub temperature : Option h.F64
    pub max_tokens : Option ℕ

  abbrev pub default_config : ProviderRequestConfig
  default_config = record { model = none; temperature = none; max_tokens = none }

  pub data ProviderContentPart : Type 0 where
    text : String → ProviderContentPart
    json : h.Value → ProviderContentPart
    inline_data : MultimodalPayload → ProviderContentPart
    attachment : AttachmentRef → ProviderContentPart
    tool_result : ToolResultRecord h → ProviderContentPart

  pub record ProviderMessage : Type 0 where
    pub role : ProviderRole
    pub parts : List ProviderContentPart

  pub record ProviderRequest : Type 0 where
    pub trigger : AgentTrigger h
    pub context : AgentContextSnapshot h
    pub available_skills : List (SkillDefinition h)
    pub config : ProviderRequestConfig
    pub policy : EnginePolicy h
    pub contents : List ProviderMessage

  pub record ProviderDecision : Type 0 where
    pub action : AgentAction h
    pub usage : Option (ProviderUsageRecord h)
    pub cache : Option ProviderCacheRecord
