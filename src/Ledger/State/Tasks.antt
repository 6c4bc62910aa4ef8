-- ===== src/Ledger/State/Tasks.antt =====
-- The status of a task, from event to event.
use rain_engine.Prelude.{
  ◌≡◌, ◌∙◌, ap, refl, String, Option, none, some, List, [], ◌∷◌, ◌++◌, str_eq, eq_iff, arith,
  filter_map-append, if◌then◌else◌,
}
use rain_engine.Host.{Host}
use rain_engine.Types.Ids.{TaskId}
use rain_engine.Types.Events.{TaskRecord, TaskStatus, KernelEvent, KernelEventRecord}
use rain_engine.Types.Records.{SessionRecord}
use rain_engine.Ledger.Views.{kernel_events, as_kernel_event}
use rain_engine.Ledger.State.{
  upsert_by_key, change_task, task_key, note_event, project, agent_state, Projected, nothing_yet,
}

-- The status of the task of this identifier.
abbrev pub status_of : String → List TaskRecord → Option TaskStatus
status_of id [] = none
status_of id (t ∷ ts) =
    let rest = status_of id ts in if str_eq t.task_id.text id then some t.status else rest

-- The status of a task that is there.
abbrev pub becomes : TaskStatus → Option TaskStatus → Option TaskStatus
becomes s none = none
becomes s (some old) = some s

-- What an event makes of the status of a task: a plan sets it, and the events of a task's life
-- change it where the task is known.
abbrev pub status_after :
    {h : Host} → String → KernelEvent h → Option TaskStatus → Option TaskStatus
status_after id (KernelEvent.task_planned t) old =
    if str_eq t.task_id.text id then some t.status else old
status_after id (KernelEvent.task_claimed i at assignee) old =
    if str_eq i.text id then becomes TaskStatus.running old else old
status_after id (KernelEvent.task_blocked i at reason) old =
    if str_eq i.text id then becomes TaskStatus.blocked old else old
status_after id (KernelEvent.task_completed i at artifacts) old =
    if str_eq i.text id then becomes TaskStatus.done old else old
status_after id (KernelEvent.task_failed i at reason) old =
    if str_eq i.text id then becomes TaskStatus.failed old else old
status_after id (KernelEvent.task_abandoned i at reason) old =
    if str_eq i.text id then becomes TaskStatus.abandoned old else old
status_after id (KernelEvent.human_input_requested (some i) at prompt token) old =
    if str_eq i.text id then becomes TaskStatus.waiting_human old else old
status_after id _ old = old

status_of-upsert_by_key :
    (id : String) (ts : List TaskRecord) (t : TaskRecord)
    → status_of id (upsert_by_key task_key ts t)
      ≡ (if str_eq t.task_id.text id then some t.status else status_of id ts)
unfolding upsert_by_key
status_of-upsert_by_key id [] t = refl
status_of-upsert_by_key id (x ∷ ts) t = ground (
  arith,
  eq_iff x.task_id.text t.task_id.text,
  eq_iff x.task_id.text id,
  eq_iff t.task_id.text id,
  status_of-upsert_by_key id ts t,
)

-- A change that keeps the identifier and sets the status.
status_of-change_task :
    (id : String) (i : TaskId) (f : TaskRecord → TaskRecord) (s : TaskStatus) (ts : List TaskRecord)
    → ((t : TaskRecord) → (f t).task_id.text ≡ t.task_id.text)
    → ((t : TaskRecord) → (f t).status ≡ s)
    → status_of id (change_task i f ts)
      ≡ (if str_eq i.text id then becomes s (status_of id ts) else status_of id ts)
unfolding change_task
status_of-change_task id i f s [] k v = ground arith
status_of-change_task id i f s (x ∷ ts) k v = ground (
  arith,
  eq_iff x.task_id.text i.text,
  eq_iff x.task_id.text id,
  eq_iff i.text id,
  k x,
  v x,
  status_of-change_task id i f s ts k v,
)

module _ {h : Host} where
  note_event-status :
      (id : String) (p : Projected h) (e : KernelEvent h)
      → status_of id (note_event p e).tasks ≡ status_after id e (status_of id p.tasks)
  unfolding note_event
  note_event-status id p (KernelEvent.task_planned t) = status_of-upsert_by_key id p.tasks t
  note_event-status id p (KernelEvent.task_claimed i at assignee) =
      status_of-change_task id i _ TaskStatus.running p.tasks (λ t. refl) (λ t. refl)
  note_event-status id p (KernelEvent.task_blocked i at reason) =
      status_of-change_task id i _ TaskStatus.blocked p.tasks (λ t. refl) (λ t. refl)
  note_event-status id p (KernelEvent.task_completed i at artifacts) =
      status_of-change_task id i _ TaskStatus.done p.tasks (λ t. refl) (λ t. refl)
  note_event-status id p (KernelEvent.task_failed i at reason) =
      status_of-change_task id i _ TaskStatus.failed p.tasks (λ t. refl) (λ t. refl)
  note_event-status id p (KernelEvent.task_abandoned i at reason) =
      status_of-change_task id i _ TaskStatus.abandoned p.tasks (λ t. refl) (λ t. refl)
  note_event-status id p (KernelEvent.human_input_requested (some i) at prompt token) =
      status_of-change_task id i _ TaskStatus.waiting_human p.tasks (λ t. refl) (λ t. refl)
  note_event-status id p (KernelEvent.human_input_requested none at prompt token) = refl
  note_event-status id p _ = refl

  pub project-append :
      (p : Projected h) (es fs : List (KernelEventRecord h))
      → project p (es ++ fs) ≡ project (project p es) fs
  unfolding project
  project-append p [] fs = refl
  project-append p (e ∷ es) fs = project-append (note_event p e.event) es fs

  -- One more kernel event in the ledger: the status of every task is what the event makes of it.
  pub task_status-append :
      (id session_id : String) (rs : List (SessionRecord h)) (e : KernelEventRecord h)
      → status_of id (agent_state session_id (rs ++ SessionRecord.kernel_event e ∷ [])).tasks
        ≡ status_after id e.event (status_of id (agent_state session_id rs).tasks)
  unfolding agent_state kernel_events project
  task_status-append id session_id rs e =
      ap (λ es. status_of id (project (nothing_yet h) es).tasks)
        (filter_map-append as_kernel_event rs (SessionRecord.kernel_event e ∷ []))
      ∙ ap (λ (p : Projected h). status_of id p.tasks)
          (project-append (nothing_yet h) (kernel_events rs) (e ∷ []))
      ∙ note_event-status id (project (nothing_yet h) (kernel_events rs)) e.event
