-- ===== src/Examples/StateRuns.antt =====
-- Runs of the projection of an agent's state.
use rain_engine.Prelude.{◌≡◌, true, none, [], ◌∷◌, ◌++◌, List, String}
use rain_engine.Types.Events.{TaskRecord, TaskStatus, KernelEvent, KernelEventRecord}
use rain_engine.Types.Records.{SessionRecord}
use rain_engine.Ledger.State.{agent_state, goal_key, task_key, artifact_key, resource_key}
use rain_engine.Ledger.State.Tasks.{status_of, status_after, task_status-append}
use rain_engine.Ledger.State.Keys.{distinct, agent_state-distinct}
use rain_engine.Examples.Sample.{sample}

abbrev dishes : TaskRecord
dishes = record {
  task_id = record { text = "t1" };
  goal_id = none;
  parent_task_id = none;
  created_at = 1;
  title = "dishes";
  detail = none;
  status = TaskStatus.pending;
  assignee = none;
  blocked_by = [];
}

abbrev event_of : String → KernelEvent sample → KernelEventRecord sample
event_of id e = record { event_id = id; occurred_at = 2; event = e }

abbrev planned : List (SessionRecord sample)
planned = SessionRecord.kernel_event (event_of "e1" (KernelEvent.task_planned dishes)) ∷ []

abbrev washed : KernelEventRecord sample
washed = event_of "e2" (KernelEvent.task_completed (record { text = "t1" }) 3 [])

task_status_example :
    status_of "t1" (agent_state "s" (planned ++ SessionRecord.kernel_event washed ∷ [])).tasks
    ≡ status_after "t1" washed.event (status_of "t1" (agent_state "s" planned).tasks)
task_status_example = task_status-append "t1" "s" planned washed

agent_state_example :
    let s = agent_state "s" (planned ++ planned) in
    (distinct goal_key s.goals ≡ true)
    × (distinct task_key s.tasks ≡ true)
    × (distinct artifact_key s.artifacts ≡ true)
    × (distinct resource_key s.resources ≡ true)
agent_state_example = agent_state-distinct "s" (planned ++ planned)
