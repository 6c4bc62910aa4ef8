-- ===== src/Ledger/Window.antt =====
-- rain-engine-core/src/types.rs: what `SessionSnapshot` reads from the records behind the last
-- outcome: `active_trigger`, `current_step_count`, `active_tool_execution_graph` and
-- `current_consecutive_tool_failure_steps`. The functions take the snapshot's `records`.
pub mod Steps
pub mod Failures
use rain_engine.Prelude.{
  ℕ, suc, String, Bool, true, false, ◌&&◌, Option, none, some, List, [], ◌∷◌, ◌++◌, length, drop,
  find_map, rfind_map, filter_map, retain, all, any, str_eq, ltb, ◌==◌, if◌then◌else◌, not,
}
use rain_engine.Host.{Host}
use rain_engine.Types.Actions.{AgentAction}
use rain_engine.Types.Tools.{ToolExecutionGraph, ToolNodeStatus, ToolResultRecord, is_err}
use rain_engine.Types.Events.{TriggerRecord}
use rain_engine.Types.Records.{SessionRecord}

-- `iter().rposition(p)`
abbrev pub rposition {ℓ} : {A : Type ℓ} → (A → Bool) → List A → Option ℕ
rposition p [] = none
rposition p (x ∷ xs) = elim (rposition p xs) [
  | some i ↦ some (suc i)
  | none ↦ if p x then some 0 else none
]

abbrev pub slice_from {ℓ} : {A : Type ℓ} → Option ℕ → List A → List A
slice_from none records = records
slice_from (some index) records = drop (suc index) records

-- `Succeeded | Failed | Skipped | TimedOut`
abbrev pub is_final : ToolNodeStatus → Bool
is_final ToolNodeStatus.succeeded = true
is_final ToolNodeStatus.failed = true
is_final ToolNodeStatus.skipped = true
is_final ToolNodeStatus.timed_out = true
is_final _ = false

module _ {h : Host} where
  abbrev pub is_outcome : SessionRecord h → Bool
  is_outcome (SessionRecord.outcome r) = true
  is_outcome _ = false

  -- The records behind the last outcome, all of them if there is none.
  unfoldable pub window : List (SessionRecord h) → List (SessionRecord h)
  window records = slice_from (rposition is_outcome records) records

  abbrev pub as_trigger : SessionRecord h → Option (TriggerRecord h)
  as_trigger (SessionRecord.trigger t) = some t
  as_trigger _ = none

  unfoldable pub active_trigger : List (SessionRecord h) → Option (TriggerRecord h)
  active_trigger records = find_map as_trigger (window records)

  abbrev pub is_step : SessionRecord h → Bool
  is_step (SessionRecord.model_decision r) = true
  is_step (SessionRecord.deliberation r) = true
  is_step _ = false

  unfoldable pub current_step_count : List (SessionRecord h) → ℕ
  current_step_count records = length (retain is_step (window records))

  abbrev pub as_graph : SessionRecord h → Option (ToolExecutionGraph h)
  as_graph (SessionRecord.tool_execution_graph g) = some g
  as_graph _ = none

  -- The call of a final checkpoint of the graph.
  abbrev pub final_call : String → SessionRecord h → Option String
  final_call graph_id (SessionRecord.tool_node_checkpoint c) =
      if str_eq c.graph_id graph_id && is_final c.status then some c.call_id else none
  final_call graph_id _ = none

-- `collect::<BTreeSet<_>>().len()`: how many different texts there are.
abbrev pub distinct : List String → ℕ
distinct [] = 0
distinct (x ∷ xs) = let rest = distinct xs in if any (str_eq x) xs then rest else suc rest

module _ {h : Host} where
  unfinished :
      List (SessionRecord h) → Option (ToolExecutionGraph h) → Option (ToolExecutionGraph h)
  unfinished slice none = none
  unfinished slice (some graph) =
      if ltb (distinct (filter_map (final_call graph.graph_id) slice)) (length graph.nodes)
      then some graph
      else none

  unfoldable pub active_tool_execution_graph :
      List (SessionRecord h) → Option (ToolExecutionGraph h)
  unfolding unfinished
  active_tool_execution_graph records =
      let slice = window records in unfinished slice (rfind_map as_graph slice)

-- The loop of `current_consecutive_tool_failure_steps`: the closed windows (newest first), the
-- action whose window is open, and the results since.
pub record FailureScan (h : Host) : Type 0 where
  pub windows : List (AgentAction h × List (ToolResultRecord h))
  pub current_action : Option (AgentAction h)
  pub current_results : List (ToolResultRecord h)

module _ {h : Host} where
  unfoldable pub scan_record : FailureScan h → SessionRecord h → FailureScan h
  scan_record s (SessionRecord.model_decision d) = elim s.current_action [
    | some action ↦ record {
      windows = (action, s.current_results) ∷ s.windows;
      current_action = some d.action;
      current_results = [];
    }
    | none ↦ record s { current_action = some d.action }
  ]
  scan_record s (SessionRecord.deliberation d) = elim s.current_action [
    | some action ↦ record {
      windows = (action, s.current_results) ∷ s.windows;
      current_action = none;
      current_results = [];
    }
    | none ↦ s
  ]
  scan_record s (SessionRecord.tool_result r) = record s {
    current_results = s.current_results ++ r ∷ [];
  }
  scan_record s _ = s

  unfoldable pub scan : FailureScan h → List (SessionRecord h) → FailureScan h
  scan s [] = s
  scan s (r ∷ rs) = scan (scan_record s r) rs

  abbrev pub close_scan : FailureScan h → List (AgentAction h × List (ToolResultRecord h))
  close_scan s = elim s.current_action [
    | some action ↦ (action, s.current_results) ∷ s.windows
    | none ↦ s.windows
  ]

  -- A window in which every call of a `CallSkills` has failed.
  abbrev pub failed_window : AgentAction h → List (ToolResultRecord h) → Bool
  failed_window (AgentAction.call_skills calls) results =
      not (length calls == 0)
      && (length results == length calls
          && all (λ (r : ToolResultRecord h). is_err r.output) results)
  failed_window _ results = false

  unfoldable pub trailing_failures : List (AgentAction h × List (ToolResultRecord h)) → ℕ
  trailing_failures [] = 0
  trailing_failures ((action, results) ∷ ws) =
      let rest = suc (trailing_failures ws) in if failed_window action results then rest else 0

  unfoldable pub current_consecutive_tool_failure_steps : List (SessionRecord h) → ℕ
  unfolding trailing_failures scan scan_record
  current_consecutive_tool_failure_steps records = trailing_failures (
      close_scan (
        scan (record { windows = []; current_action = none; current_results = [] })
          (window records)))
