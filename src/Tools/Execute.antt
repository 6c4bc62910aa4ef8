-- ===== src/Tools/Execute.antt =====
-- rain-engine-core/src/engine.rs: `execute_planned_calls`, the loop that runs a graph of calls, with
-- `skip_blocked_nodes`. The map `results_by_call` is only written, so it is left out. A task that
-- panics is left out: every task that is spawned is joined with a result.
pub mod Settles
pub mod Skips
pub mod Spawns
pub mod Joins
pub mod Termination
pub mod Grows
use rain_engine.Prelude.{
  ℕ, zero, suc, min, max, String, Bool, true, false, ◌||◌, not, Option, none, some, List, [], ◌∷◌,
  ◌++◌, any, find, filter_map, take, length, str_eq, if◌then◌else◌,
}
use rain_engine.Prelude.Assoc
use rain_engine.Prelude.Assoc.{Assoc}
use rain_engine.Prelude.Text.{concat}
use rain_engine.Host.{Host}
use rain_engine.Types.Ids.{ResumeToken}
use rain_engine.Types.Policy.{EnginePolicy}
use rain_engine.Types.Actions.{PlannedSkillCall, SuspendReason}
use rain_engine.Types.Tools.{
  ToolDependency, ToolNode, ToolExecutionGraph, ToolNodeStatus, ToolResultRecord, SkillFailureKind,
  is_ok,
}
use rain_engine.Types.Records.{SessionRecord}
use rain_engine.Types.Requests.{AgentContext}
use rain_engine.Store.Appends.{append_tool_execution_graph}
use rain_engine.World.{Outside, EngineError}
use rain_engine.World.Exec.{Exec, pure, raise, ask, each, when, ◌>>=◌, ◌>>◌, append, now, new_uuid}
use rain_engine.Engine.Context.{AgentEngine}
use rain_engine.Tools.Graph.{
  existing_or_new_graph, latest_tool_statuses, started_attempt_counts, ready_nodes,
  is_terminal_status, is_unsuccessful, final_status_for_result, result_detail,
}
use rain_engine.Tools.Attempts.{PreparedCall, run_prepared_call, requires_human_approval}
use rain_engine.Tools.Prepare.{
  PreparedNode, append_tool_checkpoint, error_result, prepare_node, is_empty,
}

-- The variables of the loop.
pub record Batch (h : Host) : Type 0 where
  pub statuses : Assoc ToolNodeStatus
  pub attempts : Assoc ℕ
  pub new_results : List (ToolResultRecord h)

pub record ExecutedBatch (h : Host) : Type 0 where
  pub results : List (ToolResultRecord h)
  pub all_failed : Bool

pub data BatchExecution (h : Host) : Type 0 where
  executed : ExecutedBatch h → BatchExecution h
  suspended : SuspendReason → List (PlannedSkillCall h) → ResumeToken → BatchExecution h

-- `unwrap_or(&1)` on a count
abbrev or_one : Option ℕ → ℕ
or_one none = 1
or_one (some n) = n

module _ {h : Host} where
  abbrev pub settle : String → ToolNodeStatus → ToolResultRecord h → Batch h → Batch h
  settle call_id status result b = record b {
    statuses = Assoc.insert call_id status b.statuses;
    new_results = b.new_results ++ result ∷ [];
  }

  -- The first dependency that failed, was skipped or timed out.
  unfoldable pub blocked_by : Assoc ToolNodeStatus → ToolNode h → Option ToolDependency
  blocked_by statuses node =
      find (λ (d : ToolDependency). is_unsuccessful (Assoc.get d.call_id statuses))
        node.dependencies

  unfoldable pub max_ready : EnginePolicy h → ℕ
  max_ready policy = max policy.max_ready_tool_nodes 1

  unfoldable pub max_parallel : EnginePolicy h → ℕ
  max_parallel policy =
      min (max policy.max_parallel_skill_calls 1) (max policy.max_ready_tool_nodes 1)

  -- The names of the calls whose skills ask for an approval.
  abbrev pub asks_approval : AgentEngine h → PlannedSkillCall h → Option String
  asks_approval engine call = elim (Assoc.get call.name engine.skills) [
    | none ↦ none
    | some skill ↦ if requires_human_approval skill.backend then some call.name else none
  ]

  abbrev pub has_graph : String → SessionRecord h → Bool
  has_graph graph_id (SessionRecord.tool_execution_graph g) = str_eq g.graph_id graph_id
  has_graph graph_id _ = false

  abbrev pub result_of : List (ToolResultRecord h) → ToolNode h → Option (ToolResultRecord h)
  result_of results node = find (λ (r : ToolResultRecord h). str_eq r.call_id node.call_id) results

  -- The results in the order of the graph.
  unfoldable pub ordered_batch : ToolExecutionGraph h → List (ToolResultRecord h) → ExecutedBatch h
  ordered_batch graph new_results =
      let ordered = filter_map (result_of new_results) graph.nodes in
      record {
        results = ordered;
        all_failed = not (any (λ (r : ToolResultRecord h). is_ok r.output) ordered);
      }

module _ {h : Host} (outside : Outside h) (engine : AgentEngine h) (context : AgentContext h)
    (graph : ToolExecutionGraph h) (step : ℕ) where
  abbrev pub skip_blocked : ToolNode h → Batch h → Option ToolDependency → Exec h (Batch h × Bool)
  skip_blocked node b none = pure (b, false)
  skip_blocked node b (some dependency) = do
    let message : String = concat ("dependency `" ∷ dependency.call_id ∷ "` did not succeed" ∷ [])
    at ← now outside
    append_tool_checkpoint outside engine context graph node ToolNodeStatus.skipped 0 (some message)
    pure (
      settle node.call_id ToolNodeStatus.skipped
          (error_result at node.call_id node.skill_name SkillFailureKind.internal message) b,
      true,
    )

  abbrev pub skip_node : ToolNode h → Batch h → Exec h (Batch h × Bool)
  skip_node node b =
      if is_terminal_status (Assoc.get node.call_id b.statuses)
      then pure (b, false)
      else skip_blocked node b (blocked_by b.statuses node)

  -- The loop over the nodes, and whether it skipped any.
  unfoldable pub skip_blocked_nodes : List (ToolNode h) → Batch h → Exec h (Batch h × Bool)
  unfolding ◌>>=◌ pure blocked_by append_tool_checkpoint error_result is_terminal_status
  skip_blocked_nodes [] b = pure (b, false)
  skip_blocked_nodes (node ∷ nodes) b = do
    (b', changed) ← skip_node node b
    (b'', changed') ← skip_blocked_nodes nodes b'
    pure (b'', changed || changed')

  -- An executable node is spawned; another one is settled at once.
  abbrev pub take_prepared :
      ToolNode h
      → Batch h
      → List (PreparedCall h)
      → PreparedNode h
      → Batch h × List (PreparedCall h)
  take_prepared node b spawned (PreparedNode.executable p) = (b, spawned ++ p ∷ [])
  take_prepared node b spawned (PreparedNode.immediate r) =
      (settle node.call_id (final_status_for_result r) r b, spawned)

  unfoldable pub prepare_nodes :
      List (ToolNode h) → Batch h → List (PreparedCall h) → Exec h (Batch h × List (PreparedCall h))
  unfolding prepare_node final_status_for_result
  prepare_nodes [] b spawned = pure (b, spawned)
  prepare_nodes (node ∷ nodes) b spawned = do
    (prepared, attempts) ← prepare_node outside engine context graph node step b.attempts
    let (b', spawned') = take_prepared node (record b { attempts = attempts }) spawned prepared
    prepare_nodes nodes b' spawned'

  unfoldable pub run_spawned : List (PreparedCall h) → Exec h (List (ToolResultRecord h))
  unfolding run_prepared_call now
  run_spawned [] = pure []
  run_spawned (p ∷ ps) = do
    at ← now outside
    results ← run_spawned ps
    pure (run_prepared_call at p ∷ results)

  abbrev pub join_at : ToolResultRecord h → Batch h → Option (ToolNode h) → Exec h (Batch h)
  join_at result b none = pure b
  join_at result b (some node) = do
    append_tool_checkpoint outside engine context graph node (final_status_for_result result)
        (or_one (Assoc.get node.call_id b.attempts)) (result_detail result)
    pure (settle node.call_id (final_status_for_result result) result b)

  -- `while let Some(joined) = join_set.join_next().await`
  unfoldable pub join_results : List (ToolResultRecord h) → Batch h → Exec h (Batch h)
  unfolding result_detail
  join_results [] b = pure b
  join_results (result ∷ results) b = do
    b' ← join_at result b (find (λ (n : ToolNode h). str_eq n.call_id result.call_id) graph.nodes)
    join_results results b'

  unfoldable pub run_ready : List (ToolNode h) → Batch h → Exec h (Batch h)
  unfolding prepare_nodes run_spawned join_results max_parallel ask
  run_ready ready b = do
    (b', spawned) ← prepare_nodes (take (max_parallel context.metadata.policy) ready) b []
    results ← run_spawned spawned
    order ← ask outside.joined
    join_results (order results) b'

  abbrev pub ready_now : Batch h → List (ToolNode h)
  ready_now b = take (max_ready context.metadata.policy) (ready_nodes graph b.statuses)

  -- The loop, on a number of rounds: `none` says that they did not do.
  unfoldable pub execute_rounds : ℕ → Batch h → Exec h (Option (Batch h))
  unfolding skip_blocked_nodes run_ready ready_nodes max_ready
  execute_rounds zero b = pure none
  execute_rounds (suc fuel) b =
      let again : Batch h → Exec h (Option (Batch h)) = execute_rounds fuel in
      skip_blocked_nodes graph.nodes b >>= λ (b', skipped).
      if is_empty (ready_now b')
      then if skipped then again b' else pure (some b')
      else (run_ready (ready_now b') b' >>= again)

-- As many rounds as there are nodes, and one more.
abbrev pub enough_rounds : {h : Host} → ToolExecutionGraph h → ℕ
enough_rounds graph = suc (length graph.nodes)

module _ {h : Host} where
  -- `enough_rounds` do, so the failure is not met.
  abbrev pub finished_batch : ToolExecutionGraph h → Option (Batch h) → Exec h (BatchExecution h)
  finished_batch graph none = raise (EngineError.blob "out of rounds")
  finished_batch graph (some b) = pure (BatchExecution.executed (ordered_batch graph b.new_results))

module _ {h : Host} (outside : Outside h) (engine : AgentEngine h) (context : AgentContext h) where
  -- A graph that is new to the ledger is recorded, with a checkpoint for each node.
  unfoldable pub queue_graph : ToolExecutionGraph h → Exec h Unit
  unfolding append_tool_execution_graph append_tool_checkpoint each append
  queue_graph graph = when (not (any (has_graph graph.graph_id) context.records)) (
      append_tool_execution_graph (append outside) context.session_id graph
      >> each
          (λ node.
            append_tool_checkpoint outside engine context graph node ToolNodeStatus.queued 0 none)
          graph.nodes)

  unfoldable pub starting_batch : ToolExecutionGraph h → Batch h
  unfolding latest_tool_statuses started_attempt_counts
  starting_batch graph = record {
    statuses = latest_tool_statuses context.records graph.graph_id;
    attempts = started_attempt_counts context.records graph.graph_id;
    new_results = [];
  }

  unfoldable pub run_graph : ℕ → ToolExecutionGraph h → Exec h (BatchExecution h)
  unfolding queue_graph starting_batch execute_rounds ordered_batch raise ◌>>=◌
  run_graph step graph = do
    queue_graph graph
    done ←
        execute_rounds outside engine context graph step (enough_rounds graph)
          (starting_batch graph)
    finished_batch graph done

  abbrev pub execute_approved : ℕ → List (PlannedSkillCall h) → Exec h (BatchExecution h)
  execute_approved step calls = do
    at ← now outside
    run_graph step (existing_or_new_graph context.records context.metadata.trigger_id step at calls)

  unfoldable pub execute_planned_calls :
      ℕ → List (PlannedSkillCall h) → Bool → Exec h (BatchExecution h)
  unfolding run_graph existing_or_new_graph requires_human_approval new_uuid
  execute_planned_calls step calls approval_override =
      let approval_calls = filter_map (asks_approval engine) calls in
      if approval_override || is_empty approval_calls then execute_approved step calls else do
        token ← new_uuid outside
        pure (
            BatchExecution.suspended (SuspendReason.human_approval_required approval_calls) calls
              (record { text = token }))
