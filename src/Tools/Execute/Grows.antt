-- ===== src/Tools/Execute/Grows.antt =====
-- rain-engine-core/src/engine.rs: what the run of a graph leaves of the memory store.
use rain_engine.Prelude.{ℕ, zero, suc, Bool, Option, none, some, List, [], ◌∷◌}
use rain_engine.Host.{Host}
use rain_engine.Types.Actions.{PlannedSkillCall}
use rain_engine.Types.Tools.{ToolDependency, ToolNode, ToolExecutionGraph, ToolResultRecord}
use rain_engine.Types.Requests.{AgentContext}
use rain_engine.World.{Outside}
use rain_engine.World.Exec.{raise}
use rain_engine.Engine.Context.{AgentEngine}
use rain_engine.Tools.Attempts.{PreparedCall}
use rain_engine.Store.{InMemoryMemoryStore}
use rain_engine.World.Grows.{Keeps, Fails, Extends}
use rain_engine.World.Appends.{append_rules}
use rain_engine.Prelude.{◌≡◌, ◌∙◌, ap, refl}
use rain_engine.World.Grows.{JoinsAll, Keeps-bind_returned}
use rain_engine.World.Returns.{Returns}
use rain_engine.Types.Tools.{ok}
use rain_engine.Tools.Execute.Termination.{execute_rounds_end}
use rain_engine.World.Grows.{Keeps-bind, Keeps-if, Keeps-pure, Keeps-each, Keeps-now, Keeps-when}
use rain_engine.World.Appends.{Keeps-append_tool_execution_graph}
use rain_engine.Tools.Prepare.Grows.{Keeps-append_tool_checkpoint, Keeps-prepare_node}
use rain_engine.Tools.Execute.{
  skip_blocked, skip_blocked_nodes, prepare_nodes, run_spawned, join_at, join_results, run_ready,
  execute_rounds, enough_rounds, finished_batch, queue_graph, starting_batch, run_graph,
  execute_planned_calls, Batch,
}

module _ {h : Host} (outside : Outside h) (engine : AgentEngine h) (context : AgentContext h)
    (s0 : InMemoryMemoryStore h) (graph : ToolExecutionGraph h) (step : ℕ) where
  Keeps-skip_blocked :
      (node : ToolNode h) (b : Batch h) (by : Option ToolDependency)
      → Keeps
          (Extends context.session_id s0)
          (Fails outside)
          (skip_blocked outside engine context graph step node b by)
  Keeps-skip_blocked node b none = search append_rules
  Keeps-skip_blocked node b (some d) = search (append_rules, Keeps-append_tool_checkpoint)

  pub Keeps-skip_blocked_nodes :
      (nodes : List (ToolNode h)) (b : Batch h)
      → Keeps
          (Extends context.session_id s0)
          (Fails outside)
          (skip_blocked_nodes outside engine context graph step nodes b)
  unfolding skip_blocked_nodes
  Keeps-skip_blocked_nodes [] b = search append_rules
  Keeps-skip_blocked_nodes (node ∷ nodes) b =
      Keeps-bind _ _ (Keeps-if _ _ _ (Keeps-pure _) (Keeps-skip_blocked node b _))
        (λ r. Keeps-bind _ _ (Keeps-skip_blocked_nodes nodes r.0) (λ r'. Keeps-pure _))

  Keeps-prepare_nodes :
      (nodes : List (ToolNode h)) (b : Batch h) (spawned : List (PreparedCall h))
      → Keeps
          (Extends context.session_id s0)
          (Fails outside)
          (prepare_nodes outside engine context graph step nodes b spawned)
  unfolding prepare_nodes
  Keeps-prepare_nodes [] b spawned = search append_rules
  Keeps-prepare_nodes (node ∷ nodes) b spawned =
      Keeps-bind _ _ (Keeps-prepare_node outside engine context s0 graph node step b.attempts)
        (λ r. Keeps-prepare_nodes nodes _ _)

  Keeps-run_spawned :
      (calls : List (PreparedCall h))
      → Keeps
          (Extends context.session_id s0)
          (Fails outside)
          (run_spawned outside engine context graph step calls)
  unfolding run_spawned
  Keeps-run_spawned [] = search append_rules
  Keeps-run_spawned (p ∷ ps) =
      Keeps-bind _ _ (Keeps-now outside)
        (λ at. Keeps-bind _ _ (Keeps-run_spawned ps) (λ rs. Keeps-pure _))

  Keeps-join_at :
      (result : ToolResultRecord h) (b : Batch h) (node : Option (ToolNode h))
      → Keeps
          (Extends context.session_id s0)
          (Fails outside)
          (join_at outside engine context graph step result b node)
  Keeps-join_at result b none = search append_rules
  Keeps-join_at result b (some node) = search (append_rules, Keeps-append_tool_checkpoint)

  Keeps-join_results :
      (results : List (ToolResultRecord h)) (b : Batch h)
      → Keeps
          (Extends context.session_id s0)
          (Fails outside)
          (join_results outside engine context graph step results b)
  unfolding join_results
  Keeps-join_results [] b = search append_rules
  Keeps-join_results (r ∷ results) b =
      Keeps-bind _ _ (Keeps-join_at r b _) (λ b'. Keeps-join_results results b')

  pub Keeps-run_ready :
      (ready : List (ToolNode h)) (b : Batch h)
      → Keeps
          (Extends context.session_id s0)
          (Fails outside)
          (run_ready outside engine context graph step ready b)
  unfolding run_ready
  Keeps-run_ready ready b =
      search (append_rules, Keeps-prepare_nodes, Keeps-run_spawned, Keeps-join_results)

  Keeps-execute_rounds :
      (fuel : ℕ) (b : Batch h)
      → Keeps
          (Extends context.session_id s0)
          (Fails outside)
          (execute_rounds outside engine context graph step fuel b)
  unfolding execute_rounds
  Keeps-execute_rounds zero b = search append_rules
  Keeps-execute_rounds (suc fuel) b = Keeps-bind _ _ (Keeps-skip_blocked_nodes graph.nodes b) (λ r.
      Keeps-if _ _ _ (Keeps-if _ _ _ (Keeps-execute_rounds fuel r.0) (Keeps-pure _))
        (Keeps-bind _ _ (Keeps-run_ready _ r.0) (λ b'. Keeps-execute_rounds fuel b')))

module _ {h : Host} (outside : Outside h) (engine : AgentEngine h) (context : AgentContext h)
    (s0 : InMemoryMemoryStore h) where
  Keeps-queue_graph :
      (graph : ToolExecutionGraph h)
      → Keeps
          (Extends context.session_id s0)
          (Fails outside)
          (queue_graph outside engine context graph)
  unfolding queue_graph
  Keeps-queue_graph graph = Keeps-when _ _ (
      Keeps-bind _ _ (Keeps-append_tool_execution_graph outside s0 _ graph) (λ u.
        Keeps-each _ _
          (λ node. Keeps-append_tool_checkpoint outside engine context s0 graph node _ _ _)))

  Keeps-finished_batch :
      (graph : ToolExecutionGraph h) (done : Option (Batch h))
      → (JoinsAll outside → ¬ (done ≡ none))
      → Keeps (Extends context.session_id s0) (Fails outside) (finished_batch graph done)
  unfolding raise
  Keeps-finished_batch graph none ends = record {
    at = λ w e. e;
    fails = λ w e x all. absurd (ends all refl);
  }
  Keeps-finished_batch graph (some b) ends = search append_rules

  Returns-enough_rounds :
      (step : ℕ) (graph : ToolExecutionGraph h) (b : Batch h)
      → Returns
          (λ done. JoinsAll outside → ¬ (done ≡ none))
          (execute_rounds outside engine context graph step (enough_rounds graph) b)
  Returns-enough_rounds step graph b = record {
    at = λ w done e all none_left.
        execute_rounds_end outside engine context graph step b w all (e ∙ ap ok none_left);
  }

  Keeps-run_graph :
      (step : ℕ) (graph : ToolExecutionGraph h)
      → Keeps
          (Extends context.session_id s0)
          (Fails outside)
          (run_graph outside engine context step graph)
  unfolding run_graph
  Keeps-run_graph step graph = Keeps-bind _ _ (Keeps-queue_graph graph) λ u.
      Keeps-bind_returned _ _
        (Keeps-execute_rounds outside engine context s0 graph step (enough_rounds graph)
          (starting_batch outside engine context graph))
        (Returns-enough_rounds step graph (starting_batch outside engine context graph))
        λ done ends. Keeps-finished_batch graph done ends

  pub Keeps-execute_planned_calls :
      (step : ℕ) (calls : List (PlannedSkillCall h)) (approval_override : Bool)
      → Keeps
          (Extends context.session_id s0)
          (Fails outside)
          (execute_planned_calls outside engine context step calls approval_override)
  unfolding execute_planned_calls
  Keeps-execute_planned_calls step calls approval_override = search (append_rules, Keeps-run_graph)
