-- ===== src/Kernel.antt =====
-- rain-engine-core/src/engine.rs: the kernel events of a trigger, its intent, and the results of an
-- advance that are made from events.
pub mod Deltas
use rain_engine.Prelude.{
  ℕ, String, false, ◌||◌, Option, none, some, List, [], ◌∷◌, ◌++◌, map, find_map, if◌then◌else◌,
}
use rain_engine.Prelude.Text.{concat, contains}
use rain_engine.Host.{Host}
use rain_engine.Types.Ids.{SystemTime, TaskId}
use rain_engine.Types.Attachments.{AttachmentRef}
use rain_engine.Types.Actions.{ApprovalDecision}
use rain_engine.Types.Events.{KernelEvent, KernelEventRecord, AgentTrigger, WakeRequestRecord}
use rain_engine.Types.Records.{StopReason}
use rain_engine.Types.Requests.{EngineOutcome, AgentStateDelta, AdvanceResult}
use rain_engine.World.{Outside}

abbrev pub no_delta : AgentStateDelta
no_delta = record {
  created_goal_ids = [];
  updated_task_ids = [];
  observation_ids = [];
  artifact_ids = [];
  delegation_correlation_ids = [];
}

-- `{decision:?}`
abbrev decision_name : ApprovalDecision → String
decision_name ApprovalDecision.approved = "Approved"
decision_name ApprovalDecision.rejected = "Rejected"

unfoldable pub storage_failure_outcome : String → ℕ → String → EngineOutcome
storage_failure_outcome trigger_id steps_executed detail = record {
  trigger_id = trigger_id;
  stop_reason = StopReason.storage_failure;
  response = none;
  detail = some detail;
  steps_executed = steps_executed;
  idempotent_replay = false;
  resume_token = none;
}

-- The intent of a content that a human wrote, in lower case.
unfoldable pub intent_of_content : String → String
intent_of_content lowered =
    if contains lowered "approve" || contains lowered "permission"
    then "approval_or_permission"
    else if contains lowered "fix" || (contains lowered "change" || contains lowered "write")
    then "task_execution"
    else if contains lowered "what" || (contains lowered "why" || contains lowered "how")
    then "question_answering"
    else "conversation"

abbrev push_task : TaskId → AgentStateDelta → AgentStateDelta
push_task id d = record d { updated_task_ids = d.updated_task_ids ++ id ∷ [] }

abbrev attachment_ids : List AttachmentRef → List String
attachment_ids = map (λ (a : AttachmentRef). a.attachment_id)

module _ {h : Host} where
  -- One round of the loop of `derive_state_delta`.
  unfoldable pub note_delta : AgentStateDelta → KernelEvent h → AgentStateDelta
  note_delta d (KernelEvent.goal_created g) = record d {
    created_goal_ids = d.created_goal_ids ++ g.goal_id ∷ [];
  }
  note_delta d (KernelEvent.task_planned t) = push_task t.task_id d
  note_delta d (KernelEvent.task_claimed id at assignee) = push_task id d
  note_delta d (KernelEvent.task_blocked id at reason) = push_task id d
  note_delta d (KernelEvent.task_completed id at ids) = push_task id d
  note_delta d (KernelEvent.task_failed id at reason) = push_task id d
  note_delta d (KernelEvent.task_abandoned id at reason) = push_task id d
  note_delta d (KernelEvent.human_input_requested (some id) at prompt token) = push_task id d
  note_delta d (KernelEvent.human_input_requested none at prompt token) = d
  note_delta d (KernelEvent.observation_appended o) = record d {
    observation_ids = d.observation_ids ++ o.observation_id ∷ [];
  }
  note_delta d (KernelEvent.artifact_produced a) = record d {
    artifact_ids = d.artifact_ids ++ a.artifact_id ∷ [];
  }
  note_delta d (KernelEvent.delegation_requested r) = record d {
    delegation_correlation_ids = d.delegation_correlation_ids ++ r.correlation_id ∷ [];
  }
  note_delta d (KernelEvent.delegation_resolved id at payload metadata) = record d {
    delegation_correlation_ids = d.delegation_correlation_ids ++ id ∷ [];
  }
  note_delta d _ = d

  unfoldable pub delta_from : AgentStateDelta → List (KernelEventRecord h) → AgentStateDelta
  unfolding note_delta
  delta_from d [] = d
  delta_from d (e ∷ es) = delta_from (note_delta d e.event) es

  unfoldable pub derive_state_delta : List (KernelEventRecord h) → AgentStateDelta
  unfolding delta_from
  derive_state_delta events = delta_from no_delta events

  abbrev pub wake_of : KernelEvent h → Option WakeRequestRecord
  wake_of (KernelEvent.wake_requested w) = some w
  wake_of (KernelEvent.wake_scheduled w) = some w
  wake_of _ = none

  unfoldable pub extract_wake_request : KernelEventRecord h → Option WakeRequestRecord
  extract_wake_request e = wake_of e.event

  unfoldable pub build_advance_result : EngineOutcome → List (KernelEventRecord h) → AdvanceResult h
  unfolding derive_state_delta extract_wake_request
  build_advance_result outcome emitted_events = record {
    outcome = some outcome;
    emitted_events = emitted_events;
    state_delta = derive_state_delta emitted_events;
    wake_request = find_map extract_wake_request emitted_events;
  }

  unfoldable pub classify_trigger_intent : Outside h → AgentTrigger h → String
  unfolding intent_of_content
  classify_trigger_intent o (AgentTrigger.external_event source payload as') =
      concat ("external_event:" ∷ source ∷ [])
  classify_trigger_intent o (AgentTrigger.scheduled_wake id due reason) = "scheduled_wake"
  classify_trigger_intent o (AgentTrigger.human_input actor content as') =
      intent_of_content (o.to_lowercase content)
  classify_trigger_intent o (AgentTrigger.message user content as') =
      intent_of_content (o.to_lowercase content)
  classify_trigger_intent o (AgentTrigger.system_observation source observation as') =
      concat ("system_observation:" ∷ source ∷ [])
  classify_trigger_intent o (AgentTrigger.webhook source payload as') =
      concat ("webhook:" ∷ source ∷ [])
  classify_trigger_intent o (AgentTrigger.rule_trigger rule context as') =
      concat ("rule:" ∷ rule ∷ [])
  classify_trigger_intent o (AgentTrigger.proactive_heartbeat at as') = "heartbeat"
  classify_trigger_intent o (AgentTrigger.approval token decision metadata) =
      concat ("approval:" ∷ decision_name decision ∷ [])
  classify_trigger_intent o (AgentTrigger.delegation_result id payload metadata) =
      "delegation_result"

  -- `push_observation`, into the empty list of events
  unfoldable pub observation :
      String → SystemTime → String → h.Value → List String → List (KernelEventRecord h)
  observation trigger_id at source content attachments =
      record {
        event_id = concat ("observation-" ∷ trigger_id ∷ "-0" ∷ []);
        occurred_at = at;
        event = KernelEvent.observation_appended (record {
          observation_id = record { text = concat (trigger_id ∷ "-obs-0" ∷ []) };
          recorded_at = at;
          source = source;
          content = content;
          attachment_ids = attachments;
          related_resources = [];
        });
      }
      ∷ []

  unfoldable pub derive_trigger_kernel_events :
      Outside h → SystemTime → String → AgentTrigger h → List (KernelEventRecord h)
  unfolding observation
  derive_trigger_kernel_events o at id (AgentTrigger.external_event source payload as') =
      observation id at (concat ("external:" ∷ source ∷ [])) payload (attachment_ids as')
  derive_trigger_kernel_events o at id (AgentTrigger.human_input actor content as') =
      observation id at (concat ("human:" ∷ actor ∷ [])) (o.json_text "content" content)
        (attachment_ids as')
  derive_trigger_kernel_events o at id (AgentTrigger.system_observation source seen as') =
      observation id at (concat ("system:" ∷ source ∷ [])) seen (attachment_ids as')
  derive_trigger_kernel_events o at id (AgentTrigger.webhook source payload as') =
      observation id at (concat ("webhook:" ∷ source ∷ [])) payload (attachment_ids as')
  derive_trigger_kernel_events o at id (AgentTrigger.rule_trigger rule context as') =
      observation id at (concat ("rule:" ∷ rule ∷ [])) context (attachment_ids as')
  derive_trigger_kernel_events o at id (AgentTrigger.proactive_heartbeat timestamp as') =
      observation id at "heartbeat" (o.json_number "timestamp" timestamp) []
  derive_trigger_kernel_events o at id (AgentTrigger.scheduled_wake wake due reason) =
      record {
        event_id = concat ("wake-completed-" ∷ id ∷ []);
        occurred_at = at;
        event = KernelEvent.wake_completed wake at reason;
      }
      ∷ []
  derive_trigger_kernel_events o at id (AgentTrigger.message user content as') =
      observation id at (concat ("message:" ∷ user ∷ [])) (o.json_text "content" content)
        (attachment_ids as')
  derive_trigger_kernel_events o at id
        (AgentTrigger.delegation_result correlation payload metadata) =
      record {
        event_id = concat ("delegation-resolved-" ∷ id ∷ []);
        occurred_at = at;
        event = KernelEvent.delegation_resolved correlation at payload metadata;
      }
      ∷ []
  derive_trigger_kernel_events o at id (AgentTrigger.approval token decision metadata) = []
