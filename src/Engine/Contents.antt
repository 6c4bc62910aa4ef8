-- ===== src/Engine/Contents.antt =====
-- rain-engine-core/src/engine.rs: `build_provider_contents` and `build_trigger_parts`, the messages
-- that a model reads.
pub mod Paging
use rain_engine.Prelude.{
  ℕ, String, Option, none, some, List, [], ◌∷◌, ◌++◌, ◌+◌, ◌-◌, map, filter_map, length, drop, ltb,
  or_else, if◌then◌else◌,
}
use rain_engine.Prelude.Assoc
use rain_engine.Prelude.Assoc.{Assoc}
use rain_engine.Prelude.Text.{concat, show}
use rain_engine.Host.{Host}
use rain_engine.Types.Attachments.{AttachmentRef}
use rain_engine.Types.Actions.{AgentAction, ApprovalDecision, ExecutionPlanRecord}
use rain_engine.Types.Events.{AgentTrigger}
use rain_engine.Types.Records.{SessionRecord}
use rain_engine.Types.Provider.{ProviderRole, ProviderContentPart, ProviderMessage}
use rain_engine.World.{Outside}

-- The derived `Debug`
abbrev pub debug_decision : ApprovalDecision → String
debug_decision ApprovalDecision.approved = "Approved"
debug_decision ApprovalDecision.rejected = "Rejected"

abbrev pub max_recent_items : ℕ
max_recent_items = 32

module _ {h : Host} where
  abbrev text_part : List String → ProviderContentPart h
  text_part parts = ProviderContentPart.text (concat parts)

  abbrev attachment_parts : List AttachmentRef → List (ProviderContentPart h)
  attachment_parts attachments = map ProviderContentPart.attachment attachments

  -- What the records say of the intents of triggers; a later record replaces an earlier one.
  unfoldable pub note_intent : Assoc String → SessionRecord h → Assoc String
  note_intent m (SessionRecord.trigger t) = elim t.intent [
    | none ↦ m
    | some intent ↦ Assoc.insert t.trigger_id intent m
  ]
  note_intent m (SessionRecord.trigger_intent i) = Assoc.insert i.trigger_id i.intent m
  note_intent m _ = m

  unfoldable pub intents_from : Assoc String → List (SessionRecord h) → Assoc String
  unfolding note_intent
  intents_from m [] = m
  intents_from m (r ∷ rs) = intents_from (note_intent m r) rs

  -- The last records, at most `max_recent_items` of them.
  unfoldable pub truncated_history : List (SessionRecord h) → List (SessionRecord h)
  truncated_history history =
      if ltb max_recent_items (length history)
      then drop (length history - max_recent_items) history
      else history

  abbrev pub notice : ProviderMessage h
  notice = record {
    role = ProviderRole.system;
    parts =
        ProviderContentPart.text
          "Notice: Older session history has been paged out to Archival Memory to save space. Use the `MemorySearch` action to retrieve specific past interactions if you need them."
        ∷ [];
  }

  abbrev pub notices : List (SessionRecord h) → List (ProviderMessage h)
  notices history = if ltb max_recent_items (length history) then notice ∷ [] else []

  -- The message on the active plan.
  abbrev pub plan_messages : Option (ExecutionPlanRecord h) → List (ProviderMessage h)
  plan_messages none = []
  plan_messages (some plan) =
      record {
        role = ProviderRole.system;
        parts =
            text_part (
              "You are currently executing an active, multi-step plan.\n\nOBJECTIVE: "
              ∷ plan.objective
              ∷ "\n\nYou are on step "
              ∷ show (plan.current_step_index + 1)
              ∷ " of "
              ∷ show (length plan.steps)
              ∷ ".\n\nPlease stay focused on the objective and execute the necessary actions for this specific step."
              ∷ [])
            ∷ [];
      }
      ∷ []

  -- The message of a decision, where it has one.
  abbrev decision_parts : Outside h → AgentAction h → Option (List (ProviderContentPart h))
  decision_parts outside (AgentAction.respond content) =
      some (ProviderContentPart.text content ∷ [])
  decision_parts outside (AgentAction.call_skills calls) =
      some (ProviderContentPart.json (outside.calls_value calls) ∷ [])
  decision_parts outside _ = none

  abbrev intent_parts : Option String → List (ProviderContentPart h)
  intent_parts none = []
  intent_parts (some intent) = text_part ("Classified intent: " ∷ intent ∷ []) ∷ []

module _ {h : Host} (outside : Outside h) where
  unfoldable pub build_trigger_parts : AgentTrigger h → List (ProviderContentPart h)
  build_trigger_parts (AgentTrigger.external_event source payload attachments) =
      text_part ("external event source: " ∷ source ∷ [])
      ∷ ProviderContentPart.json payload
      ∷ attachment_parts attachments
  build_trigger_parts (AgentTrigger.scheduled_wake wake_id due_at reason) =
      text_part (
        "scheduled wake "
        ∷ wake_id.text
        ∷ " due at "
        ∷ outside.debug_time due_at
        ∷ ": "
        ∷ reason
        ∷ [])
      ∷ []
  build_trigger_parts (AgentTrigger.human_input actor_id content attachments) =
      text_part ("human actor: " ∷ actor_id ∷ [])
      ∷ ProviderContentPart.text content
      ∷ attachment_parts attachments
  build_trigger_parts (AgentTrigger.system_observation source observation attachments) =
      text_part ("system observation source: " ∷ source ∷ [])
      ∷ ProviderContentPart.json observation
      ∷ attachment_parts attachments
  build_trigger_parts (AgentTrigger.webhook source payload attachments) =
      text_part ("webhook source: " ∷ source ∷ [])
      ∷ ProviderContentPart.json payload
      ∷ attachment_parts attachments
  build_trigger_parts (AgentTrigger.rule_trigger rule_id context attachments) =
      text_part ("rule trigger: " ∷ rule_id ∷ [])
      ∷ ProviderContentPart.json context
      ∷ attachment_parts attachments
  build_trigger_parts (AgentTrigger.proactive_heartbeat timestamp attachments) =
      text_part ("heartbeat timestamp: " ∷ show timestamp ∷ []) ∷ attachment_parts attachments
  build_trigger_parts (AgentTrigger.message user_id content attachments) =
      text_part ("user_id: " ∷ user_id ∷ [])
      ∷ ProviderContentPart.text content
      ∷ attachment_parts attachments
  build_trigger_parts (AgentTrigger.approval resume_token decision metadata) =
      text_part
        ("approval for resume token " ∷ resume_token.text ∷ ": " ∷ debug_decision decision ∷ [])
      ∷ ProviderContentPart.json metadata
      ∷ []
  build_trigger_parts (AgentTrigger.delegation_result correlation_id payload metadata) =
      text_part ("delegation result for correlation " ∷ correlation_id.text ∷ [])
      ∷ ProviderContentPart.json payload
      ∷ ProviderContentPart.json metadata
      ∷ []

  -- The message that a record of the history becomes, where it becomes one. The intent of a trigger
  -- is its own or else the noted one.
  unfoldable pub message_of : Assoc String → SessionRecord h → Option (ProviderMessage h)
  unfolding build_trigger_parts
  message_of intents (SessionRecord.trigger t) = some (record {
    role = ProviderRole.user;
    parts =
        build_trigger_parts t.trigger
        ++ intent_parts (or_else t.intent (Assoc.get t.trigger_id intents));
  })
  message_of intents (SessionRecord.summary s) = some (record {
    role = ProviderRole.assistant;
    parts = text_part ("Summary of prior history: " ∷ s.content ∷ []) ∷ [];
  })
  message_of intents (SessionRecord.model_decision d) = elim (decision_parts outside d.action) [
    | none ↦ none
    | some parts ↦ some (record { role = ProviderRole.assistant; parts = parts })
  ]
  message_of intents (SessionRecord.tool_result r) =
      some (record { role = ProviderRole.tool; parts = ProviderContentPart.tool_result r ∷ [] })
  message_of intents _ = none

  unfoldable pub build_provider_contents :
      AgentTrigger h
      → List (SessionRecord h)
      → Option (ExecutionPlanRecord h)
      → List (ProviderMessage h)
  unfolding intents_from truncated_history message_of build_trigger_parts
  build_provider_contents trigger history active_plan =
      notices history
      ++ filter_map (message_of (intents_from [] history)) (truncated_history history)
      ++ record { role = ProviderRole.user; parts = build_trigger_parts trigger }
        ∷ plan_messages active_plan
