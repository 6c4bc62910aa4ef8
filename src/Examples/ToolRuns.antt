-- ===== src/Examples/ToolRuns.antt =====
-- Runs of tool execution.
use mathlib.Core.List.{Perm}
use rain_engine.Prelude.{
  length, leb, max, ◌+◌, ℕ, String, ◌≡◌, refl, true, false, none, [], ◌∷◌, ◌++◌, all, arith, All,
  List,
}
use rain_engine.Prelude.Int.{ℤ, pos}
use rain_engine.Types.State.{AgentContextSnapshot}
use rain_engine.Ledger.State.{agent_state}
use rain_engine.Types.Policy.{default_engine_policy, default_retry_policy, default_for_tools}
use rain_engine.Types.Tools.{
  ToolNode, ToolExecutionGraph, ToolNodeStatus, ToolNodeCheckpointRecord, SkillManifest, err,
  SkillFailureKind,
}
use rain_engine.Types.Records.{SessionRecord}
use rain_engine.Tools.Graph.{ready_nodes, is_ready, latest_tool_statuses}
use rain_engine.Tools.Graph.Ready.{finished_not_ready}
use rain_engine.Tools.Graph.Order.{AllInOrder, MayRun, ready_nodes-AllInOrder}
use rain_engine.Tools.Attempts.{PreparedCall, RegisteredSkillBackend, attempts_at}
use rain_engine.Tools.Attempts.Pauses.{attempts_at-pauses}
use rain_engine.Tools.Attempts.Bounds.{Tried, attempts_at-Tried, answers}
use rain_engine.Examples.Sample.{sample}

abbrev pub ping_skill : SkillManifest sample
ping_skill = record {
  name = "ping";
  description = "answers";
  input_schema = "{}";
  required_scopes = [];
  capability_grants = [];
  resource_policy = default_for_tools sample;
  approval_required = false;
  circuit_breaker_threshold = 500000;
}

abbrev at_start : AgentContextSnapshot sample
at_start = record {
  session_id = "s";
  granted_scopes = [];
  trigger_id = "t1";
  idempotency_key = none;
  current_step = 1;
  max_steps = 8;
  history = [];
  prior_tool_results = [];
  session_cost_usd = 0;
  state = agent_state "s" [];
  policy = default_engine_policy sample;
  active_execution_plan = none;
}

-- A skill that always times out.
abbrev late_ping : PreparedCall sample
late_ping = record {
  call_id = "c1";
  name = "ping";
  args = "{}";
  manifest = ping_skill;
  backend =
      RegisteredSkillBackend.native
        (λ i n. err (record { kind = SkillFailureKind.timeout; message = "late" })) false "native";
  context_snapshot = at_start;
  dry_run = false;
  retry_policy = record (default_retry_policy sample) { max_attempts = 3 };
}

attempts_at_example : Tried (answers late_ping) 0 3 (attempts_at late_ping)
attempts_at_example = attempts_at-Tried late_ping (omega arith)

abbrev pub node_of : String → ℤ → ℕ → ToolNode sample
node_of id priority order = record {
  call_id = id;
  skill_name = "ping";
  args = "{}";
  priority = priority;
  dependencies = [];
  retry_policy = record { policy = default_retry_policy sample };
  dry_run = false;
  provider_order = order;
}

abbrev pub two_pings : ToolExecutionGraph sample
two_pings = record {
  graph_id = "t1:1";
  trigger_id = "t1";
  step = 1;
  created_at = 2;
  nodes = node_of "c1" (pos 0) 0 ∷ node_of "c2" (pos 5) 1 ∷ [];
}

ready_nodes-AllInOrder_example :
    AllInOrder (ready_nodes two_pings [])
    × All (MayRun []) (ready_nodes two_pings [])
    × ((others : List (ToolNode sample)) × Perm (ready_nodes two_pings [] ++ others) two_pings.nodes
        × All (λ node. ¬ MayRun [] node) others)
ready_nodes-AllInOrder_example = ready_nodes-AllInOrder two_pings []

abbrev done_ping : ToolNodeCheckpointRecord
done_ping = record {
  checkpoint_id = "u1";
  graph_id = "t1:1";
  call_id = "c1";
  skill_name = "ping";
  step = 1;
  status = ToolNodeStatus.succeeded;
  attempt = 1;
  occurred_at = 4;
  detail = none;
}

finished_not_ready_example :
    is_ready
      (latest_tool_statuses {h = sample}
        (([] ++ SessionRecord.tool_node_checkpoint done_ping ∷ [])
          ++ SessionRecord.tool_node_checkpoint (record done_ping { call_id = "c2" }) ∷ [])
        "t1:1")
      (node_of "c1" (pos 0) 0)
    ≡ false
finished_not_ready_example =
    finished_not_ready []
      (SessionRecord.tool_node_checkpoint (record done_ping { call_id = "c2" }) ∷ []) done_ping
      (node_of "c1" (pos 0) 0) refl refl refl

attempts_at-pauses_example :
    (length (attempts_at late_ping).pauses + 1 ≡ (attempts_at late_ping).executions)
    × (all
          (λ ms.
            leb ms (
              max late_ping.retry_policy.initial_interval_ms
                late_ping.retry_policy.max_interval_ms))
          (attempts_at late_ping).pauses
        ≡ true)
attempts_at-pauses_example = attempts_at-pauses late_ping (omega arith)
