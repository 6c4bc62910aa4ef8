-- ===== src/Types/Events.antt =====
-- rain-engine-core/src/types.rs: triggers, goals, tasks and the kernel events.
use rain_engine.Prelude.{ℕ, String, Option, List, []}
use rain_engine.Host.{Host}
use rain_engine.Types.Ids.{
  SystemTime, ResumeToken, CorrelationId, GoalId, TaskId, ArtifactId, ObservationId, WakeId,
  ResourceRef, RelationshipEdge,
}
use rain_engine.Types.Attachments.{BlobDescriptor, AttachmentRef}
use rain_engine.Types.Actions.{ApprovalDecision, DelegationTarget, DelegationTask}

pub data GoalStatus : Type 0 where
  active blocked completed cancelled : GoalStatus

pub data TaskStatus : Type 0 where
  pending ready running blocked waiting_human done failed abandoned : TaskStatus

pub record GoalRecord : Type 0 where
  pub goal_id : GoalId
  pub created_at : SystemTime
  pub title : String
  pub detail : Option String
  pub status : GoalStatus
  pub parent_goal_id : Option GoalId

pub record TaskRecord : Type 0 where
  pub task_id : TaskId
  pub goal_id : Option GoalId
  pub parent_task_id : Option TaskId
  pub created_at : SystemTime
  pub title : String
  pub detail : Option String
  pub status : TaskStatus
  pub assignee : Option String
  pub blocked_by : List TaskId

pub record WakeRequestRecord : Type 0 where
  pub wake_id : WakeId
  pub requested_at : SystemTime
  pub due_at : SystemTime
  pub reason : String
  pub task_id : Option TaskId

module _ (h : Host) where
  pub record ObservationRecord : Type 0 where
    pub observation_id : ObservationId
    pub recorded_at : SystemTime
    pub source : String
    pub content : h.Value
    pub attachment_ids : List String
    pub related_resources : List ResourceRef

  pub record ArtifactRecord : Type 0 where
    pub artifact_id : ArtifactId
    pub created_at : SystemTime
    pub name : String
    pub mime_type : String
    pub descriptor : Option BlobDescriptor
    pub metadata : h.Value

  pub record DelegationRecord : Type 0 where
    pub correlation_id : CorrelationId
    pub created_at : SystemTime
    pub trigger_id : String
    pub target : DelegationTarget
    pub task : DelegationTask h
    pub resume_token : ResumeToken

  pub data KernelEvent : Type 0 where
    goal_created : GoalRecord → KernelEvent
    task_planned : TaskRecord → KernelEvent
    -- task, time, assignee
    task_claimed : TaskId → SystemTime → Option String → KernelEvent
    -- task, time, reason
    task_blocked : TaskId → SystemTime → String → KernelEvent
    task_completed : TaskId → SystemTime → List ArtifactId → KernelEvent
    task_failed : TaskId → SystemTime → String → KernelEvent
    task_abandoned : TaskId → SystemTime → String → KernelEvent
    human_input_requested : Option TaskId → SystemTime → String → ResumeToken → KernelEvent
    observation_appended : ObservationRecord → KernelEvent
    artifact_produced : ArtifactRecord → KernelEvent
    wake_requested : WakeRequestRecord → KernelEvent
    wake_scheduled : WakeRequestRecord → KernelEvent
    wake_completed : WakeId → SystemTime → String → KernelEvent
    delegation_requested : DelegationRecord → KernelEvent
    -- correlation, time, payload, metadata
    delegation_resolved : CorrelationId → SystemTime → h.Value → h.Value → KernelEvent
    resource_registered : ResourceRef → KernelEvent
    relationship_observed : RelationshipEdge → KernelEvent
    memory_searched : String → ℕ → KernelEvent
    memory_archived : String → KernelEvent

  pub record KernelEventRecord : Type 0 where
    pub event_id : String
    pub occurred_at : SystemTime
    pub event : KernelEvent

  pub data AgentTrigger : Type 0 where
    -- source, payload, attachments
    external_event : String → h.Value → List AttachmentRef → AgentTrigger
    -- wake, due time, reason
    scheduled_wake : WakeId → SystemTime → String → AgentTrigger
    -- actor, content, attachments
    human_input : String → String → List AttachmentRef → AgentTrigger
    system_observation : String → h.Value → List AttachmentRef → AgentTrigger
    webhook : String → h.Value → List AttachmentRef → AgentTrigger
    rule_trigger : String → h.Value → List AttachmentRef → AgentTrigger
    proactive_heartbeat : ℕ → List AttachmentRef → AgentTrigger
    message : String → String → List AttachmentRef → AgentTrigger
    -- token, decision, metadata
    approval : ResumeToken → ApprovalDecision → h.Value → AgentTrigger
    -- correlation, payload, metadata
    delegation_result : CorrelationId → h.Value → h.Value → AgentTrigger

  pub record TriggerRecord : Type 0 where
    pub trigger_id : String
    pub session_id : String
    pub idempotency_key : Option String
    pub recorded_at : SystemTime
    pub trigger : AgentTrigger
    pub intent : Option String

pub record TriggerIntentRecord : Type 0 where
  pub trigger_id : String
  pub classified_at : SystemTime
  pub intent : String

module _ {h : Host} where
  -- `AgentTrigger::attachments`
  unfoldable pub attachments : AgentTrigger h → List AttachmentRef
  attachments (external_event s p as') = as'
  attachments (human_input a c as') = as'
  attachments (system_observation s o as') = as'
  attachments (webhook s p as') = as'
  attachments (rule_trigger r c as') = as'
  attachments (proactive_heartbeat t as') = as'
  attachments (message u c as') = as'
  attachments (scheduled_wake w d r) = []
  attachments (approval t d m) = []
  attachments (delegation_result c p m) = []
