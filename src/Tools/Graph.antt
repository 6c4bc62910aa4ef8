-- ===== src/Tools/Graph.antt =====
-- rain-engine-core/src/engine.rs: `existing_or_new_graph`, `latest_tool_statuses`,
-- `started_attempt_counts`, `ready_nodes` and the statuses of nodes.
pub mod Order
pub mod Ready
use Prim.Native.Nat.{compare}
use Prim.Native.String
use text.Mathlib.Text.{is_le}
use rain_engine.Prelude.{
  ℕ, suc, max, String, Bool, true, false, ◌&&◌, not, Option, none, some, List, [], ◌∷◌, map, all,
  any, retain, rfind_map, str_eq, ◌==◌, if◌then◌else◌,
}
use rain_engine.Prelude.Int.{compare_ℤ}
use rain_engine.Prelude.Text.{concat, show}
use rain_engine.Prelude.Assoc
use rain_engine.Prelude.Assoc.{Assoc}
use rain_engine.Prelude.Sort.{sort_by}
use rain_engine.Host.{Host}
use rain_engine.Types.Ids.{SystemTime}
use rain_engine.Types.Actions.{PlannedSkillCall}
use rain_engine.Types.Tools.{
  ToolDependency, ToolNode, ToolExecutionGraph, ToolNodeStatus, ToolResultRecord, SkillFailureKind,
  ok, err,
}
use rain_engine.Types.Records.{SessionRecord}
use rain_engine.Ledger.Window.{is_final}

abbrev pub is_started : ToolNodeStatus → Bool
is_started ToolNodeStatus.started = true
is_started _ = false

abbrev pub is_succeeded : Option ToolNodeStatus → Bool
is_succeeded (some ToolNodeStatus.succeeded) = true
is_succeeded _ = false

-- `Some(Failed) | Some(Skipped) | Some(TimedOut)`
abbrev pub is_unsuccessful : Option ToolNodeStatus → Bool
is_unsuccessful (some ToolNodeStatus.failed) = true
is_unsuccessful (some ToolNodeStatus.skipped) = true
is_unsuccessful (some ToolNodeStatus.timed_out) = true
is_unsuccessful _ = false

abbrev pub timed_out_kind : SkillFailureKind → Bool
timed_out_kind SkillFailureKind.timeout = true
timed_out_kind _ = false

unfoldable pub is_terminal_status : Option ToolNodeStatus → Bool
is_terminal_status none = false
is_terminal_status (some s) = is_final s

-- `collect::<BTreeSet<_>>() == other`
abbrev pub same_set : List String → List String → Bool
same_set xs ys = all (λ x. any (str_eq x) ys) xs && all (λ y. any (str_eq y) xs) ys

module _ {h : Host} where
  number_nodes : ℕ → List (PlannedSkillCall h) → List (ToolNode h)
  number_nodes provider_order [] = []
  number_nodes provider_order (call ∷ calls) =
      record {
        call_id = call.call_id;
        skill_name = call.name;
        args = call.args;
        priority = call.priority;
        dependencies =
            map (λ (id : String). let d : ToolDependency = record { call_id = id } in d)
              call.depends_on;
        retry_policy = call.retry_policy;
        dry_run = call.dry_run;
        provider_order = provider_order;
      }
      ∷ number_nodes (suc provider_order) calls

  abbrev node_id : ToolNode h → String
  node_id node = node.call_id

  abbrev planned_id : PlannedSkillCall h → String
  planned_id call = call.call_id

  -- A graph of the same step over the same calls.
  abbrev pub matching_graph : ℕ → List String → SessionRecord h → Option (ToolExecutionGraph h)
  matching_graph step ids (SessionRecord.tool_execution_graph g) =
      if g.step == step && same_set (map node_id g.nodes) ids then some g else none
  matching_graph step ids _ = none

  abbrev or_new : Option (ToolExecutionGraph h) → ToolExecutionGraph h → ToolExecutionGraph h
  or_new none g = g
  or_new (some g) g' = g

  unfoldable pub existing_or_new_graph :
      List (SessionRecord h)
      → String
      → ℕ
      → SystemTime
      → List (PlannedSkillCall h)
      → ToolExecutionGraph h
  unfolding number_nodes show
  existing_or_new_graph records trigger_id step now calls =
      or_new (rfind_map (matching_graph step (map planned_id calls)) records) (record {
        graph_id = concat (trigger_id ∷ ":" ∷ show step ∷ []);
        trigger_id = trigger_id;
        step = step;
        created_at = now;
        nodes = number_nodes 0 calls;
      })

  note_status : String → Assoc ToolNodeStatus → SessionRecord h → Assoc ToolNodeStatus
  note_status graph_id statuses (SessionRecord.tool_node_checkpoint c) =
      if str_eq c.graph_id graph_id then Assoc.insert c.call_id c.status statuses else statuses
  note_status graph_id statuses _ = statuses

  statuses_from : String → Assoc ToolNodeStatus → List (SessionRecord h) → Assoc ToolNodeStatus
  unfolding note_status
  statuses_from graph_id statuses [] = statuses
  statuses_from graph_id statuses (r ∷ rs) =
      statuses_from graph_id (note_status graph_id statuses r) rs

  unfoldable pub latest_tool_statuses : List (SessionRecord h) → String → Assoc ToolNodeStatus
  unfolding statuses_from
  latest_tool_statuses records graph_id = statuses_from graph_id [] records

-- `unwrap_or_default()` on a count
abbrev pub or_zero : Option ℕ → ℕ
or_zero none = 0
or_zero (some n) = n

module _ {h : Host} where
  note_attempt : String → Assoc ℕ → SessionRecord h → Assoc ℕ
  note_attempt graph_id attempts (SessionRecord.tool_node_checkpoint c) =
      if str_eq c.graph_id graph_id && is_started c.status
      then Assoc.insert c.call_id (max (or_zero (Assoc.get c.call_id attempts)) c.attempt) attempts
      else attempts
  note_attempt graph_id attempts _ = attempts

  attempts_from : String → Assoc ℕ → List (SessionRecord h) → Assoc ℕ
  unfolding note_attempt
  attempts_from graph_id attempts [] = attempts
  attempts_from graph_id attempts (r ∷ rs) =
      attempts_from graph_id (note_attempt graph_id attempts r) rs

  unfoldable pub started_attempt_counts : List (SessionRecord h) → String → Assoc ℕ
  unfolding attempts_from
  started_attempt_counts records graph_id = attempts_from graph_id [] records

  -- Higher priority first, then the provider's order, then the call's id.
  unfoldable pub before : ToolNode h → ToolNode h → Bool
  before left right = is_le (
      String.then (compare_ℤ right.priority left.priority) (
        String.then (compare left.provider_order right.provider_order)
          (String.compare left.call_id right.call_id)))

  -- Not final, with every dependency succeeded.
  unfoldable pub is_ready : Assoc ToolNodeStatus → ToolNode h → Bool
  unfolding is_terminal_status
  is_ready statuses node =
      not (is_terminal_status (Assoc.get node.call_id statuses))
      && all (λ (d : ToolDependency). is_succeeded (Assoc.get d.call_id statuses)) node.dependencies

  unfoldable pub ready_nodes : ToolExecutionGraph h → Assoc ToolNodeStatus → List (ToolNode h)
  unfolding is_ready before
  ready_nodes graph statuses = sort_by before (retain (is_ready statuses) graph.nodes)

  unfoldable pub final_status_for_result : ToolResultRecord h → ToolNodeStatus
  final_status_for_result r = elim r.output [
    | ok v ↦ ToolNodeStatus.succeeded
    | err e ↦ if timed_out_kind e.kind then ToolNodeStatus.timed_out else ToolNodeStatus.failed
  ]

  unfoldable pub result_detail : ToolResultRecord h → Option String
  result_detail r = elim r.output [ ok v ↦ none | err e ↦ some e.message ]
