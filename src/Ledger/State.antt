-- ===== src/Ledger/State.antt =====
-- rain-engine-core/src/types.rs: `SessionSnapshot::agent_state`, the state of an agent that the
-- kernel events of its ledger make up, and `upsert_by_key`.
pub mod Tasks
pub mod Keys
use rain_engine.Prelude.{
  String, Option, none, some, List, [], ◌∷◌, ◌++◌, map, str_eq, if◌then◌else◌,
}
use rain_engine.Host.{Host}
use rain_engine.Types.Ids.{AgentId, TaskId, WakeId, ResourceRef, RelationshipEdge}
use rain_engine.Types.Events.{
  GoalRecord, TaskRecord, TaskStatus, ObservationRecord, ArtifactRecord, WakeRequestRecord,
  KernelEvent, KernelEventRecord,
}
use rain_engine.Types.State.{
  AgentProfile, AgentStateSnapshot, default_memory, default_wake, default_review,
  default_escalation,
}
use rain_engine.Types.Records.{SessionRecord}
use rain_engine.Ledger.Views.{kernel_events}

-- The first item with the value's key is replaced; without one the value comes last.
unfoldable pub upsert_by_key {ℓ} : {A : Type ℓ} → (A → String) → List A → A → List A
upsert_by_key key [] value = value ∷ []
upsert_by_key key (x ∷ xs) value =
    let rest = upsert_by_key key xs value in
    if str_eq (key x) (key value) then value ∷ xs else x ∷ rest

-- `tasks.iter_mut().find(|task| task.task_id == task_id)`, changed in place
unfoldable pub change_task : TaskId → (TaskRecord → TaskRecord) → List TaskRecord → List TaskRecord
change_task id f [] = []
change_task id f (t ∷ ts) =
    let rest = change_task id f ts in if str_eq t.task_id.text id.text then f t ∷ ts else t ∷ rest

abbrev pub with_status : TaskStatus → TaskRecord → TaskRecord
with_status s t = record t { status = s }

abbrev pub goal_key : GoalRecord → String
goal_key g = g.goal_id.text

abbrev pub task_key : TaskRecord → String
task_key t = t.task_id.text

abbrev pub resource_key : ResourceRef → String
resource_key r = r.resource_id

abbrev pub artifact_key : {h : Host} → ArtifactRecord h → String
artifact_key a = a.artifact_id.text

-- The variables of the loop.
pub record Projected (h : Host) : Type 0 where
  pub goals : List GoalRecord
  pub tasks : List TaskRecord
  pub observations : List (ObservationRecord h)
  pub artifacts : List (ArtifactRecord h)
  pub resources : List ResourceRef
  pub relationships : List RelationshipEdge
  pub pending_wake : Option WakeRequestRecord

abbrev pub nothing_yet : (h : Host) → Projected h
nothing_yet h = record {
  goals = [];
  tasks = [];
  observations = [];
  artifacts = [];
  resources = [];
  relationships = [];
  pending_wake = none;
}

-- The pending wake after a wake is completed.
abbrev pub without_wake : WakeId → Option WakeRequestRecord → Option WakeRequestRecord
without_wake id none = none
without_wake id (some w) = if str_eq w.wake_id.text id.text then none else some w

abbrev pub profile_of : AgentId → List GoalRecord → AgentProfile
profile_of id goals = record {
  agent_id = id;
  role = "event-agent";
  default_scopes = [];
  allowed_skill_names = [];
  goal_ids = map (λ (g : GoalRecord). g.goal_id) goals;
  memory_policy = default_memory;
  wake_policy = default_wake;
  review_policy = default_review;
  escalation_policy = default_escalation;
  config_artifact = none;
}

module _ {h : Host} where
  abbrev pub set_status : TaskId → TaskStatus → Projected h → Projected h
  set_status id status p = record p { tasks = change_task id (with_status status) p.tasks }

  abbrev pub register : ResourceRef → Projected h → Projected h
  register r p = record p { resources = upsert_by_key resource_key p.resources r }

  unfoldable pub note_event : Projected h → KernelEvent h → Projected h
  unfolding upsert_by_key change_task
  note_event p (KernelEvent.goal_created g) = record p { goals = upsert_by_key goal_key p.goals g }
  note_event p (KernelEvent.task_planned t) = record p { tasks = upsert_by_key task_key p.tasks t }
  note_event p (KernelEvent.task_claimed id at assignee) = record p {
    tasks =
        change_task id (λ t. record t { status = TaskStatus.running; assignee = assignee }) p.tasks;
  }
  note_event p (KernelEvent.task_blocked id at reason) = set_status id TaskStatus.blocked p
  note_event p (KernelEvent.task_completed id at artifacts) = set_status id TaskStatus.done p
  note_event p (KernelEvent.task_failed id at reason) = set_status id TaskStatus.failed p
  note_event p (KernelEvent.task_abandoned id at reason) = set_status id TaskStatus.abandoned p
  note_event p (KernelEvent.human_input_requested (some id) at prompt token) =
      set_status id TaskStatus.waiting_human p
  note_event p (KernelEvent.human_input_requested none at prompt token) = p
  note_event p (KernelEvent.observation_appended o) = record p {
    observations = p.observations ++ o ∷ [];
  }
  note_event p (KernelEvent.artifact_produced a) = record p {
    artifacts = upsert_by_key artifact_key p.artifacts a;
  }
  note_event p (KernelEvent.wake_requested w) = record p { pending_wake = some w }
  note_event p (KernelEvent.wake_scheduled w) = record p { pending_wake = some w }
  note_event p (KernelEvent.wake_completed id at reason) = record p {
    pending_wake = without_wake id p.pending_wake;
  }
  note_event p (KernelEvent.delegation_requested d) =
      register
        (record {
          resource_id = d.correlation_id.text;
          resource_type = "delegation";
          label = d.task.task_type;
          external_ref = some d.target.stream;
        })
        p
  note_event p (KernelEvent.delegation_resolved id at payload metadata) = p
  note_event p (KernelEvent.resource_registered r) = register r p
  note_event p (KernelEvent.relationship_observed e) = record p {
    relationships = p.relationships ++ e ∷ [];
  }
  note_event p (KernelEvent.memory_searched query results) = p
  note_event p (KernelEvent.memory_archived reason) = p

  unfoldable pub project : Projected h → List (KernelEventRecord h) → Projected h
  unfolding note_event
  project p [] = p
  project p (e ∷ es) = project (note_event p e.event) es

  unfoldable pub agent_state : String → List (SessionRecord h) → AgentStateSnapshot h
  unfolding project
  agent_state session_id records =
      let p = project (nothing_yet h) (kernel_events records) in
      let id : AgentId = record { text = session_id } in
      record {
        agent_id = id;
        profile = some (profile_of id p.goals);
        goals = p.goals;
        tasks = p.tasks;
        observations = p.observations;
        artifacts = p.artifacts;
        resources = p.resources;
        relationships = p.relationships;
        pending_wake = p.pending_wake;
      }
