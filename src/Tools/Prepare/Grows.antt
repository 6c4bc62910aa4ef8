-- ===== src/Tools/Prepare/Grows.antt =====
-- rain-engine-core/src/engine.rs: what the checks before a call leave of the memory store.
use rain_engine.Prelude.{ℕ, String, Bool, Option, none, some, List, [], ◌∷◌}
use rain_engine.Prelude.Assoc.{Assoc}
use rain_engine.Host.{Host}
use rain_engine.Types.Tools.{ToolNode, ToolExecutionGraph, ToolNodeStatus, SkillFailureKind}
use rain_engine.Types.Requests.{AgentContext}
use rain_engine.Store.{InMemoryMemoryStore}
use rain_engine.World.{Outside}
use rain_engine.World.Grows.{Keeps, Fails, Extends}
use rain_engine.World.Appends.{append_rules}
use rain_engine.Engine.Context.{AgentEngine}
use rain_engine.Tools.Attempts.{RegisteredSkill}
use rain_engine.Tools.Prepare.{
  append_tool_checkpoint, append_validation, fail_node, start_call, admit, check_args,
  prepare_checked, prepare_with, prepare_node,
}

module _ {h : Host} (outside : Outside h) (engine : AgentEngine h) (context : AgentContext h)
    (s0 : InMemoryMemoryStore h) where
  pub Keeps-append_tool_checkpoint :
      (graph : ToolExecutionGraph h) (node : ToolNode h) (status : ToolNodeStatus) (attempt : ℕ)
      (detail : Option String)
      → Keeps
          (Extends context.session_id s0)
          (Fails outside)
          (append_tool_checkpoint outside engine context graph node status attempt detail)
  unfolding append_tool_checkpoint
  Keeps-append_tool_checkpoint graph node status attempt detail = search append_rules

  pub Keeps-append_validation :
      (graph : ToolExecutionGraph h) (node : ToolNode h) (valid : Bool) (errors : List String)
      → Keeps
          (Extends context.session_id s0)
          (Fails outside)
          (append_validation outside engine context graph node valid errors)
  unfolding append_validation
  Keeps-append_validation graph node valid errors = search append_rules

  Keeps-fail_node :
      (graph : ToolExecutionGraph h) (node : ToolNode h) (kind : SkillFailureKind)
      (message : String)
      → Keeps
          (Extends context.session_id s0)
          (Fails outside)
          (fail_node outside engine context graph node kind message)
  unfolding fail_node
  Keeps-fail_node graph node kind message = search (append_rules, Keeps-append_tool_checkpoint)

  Keeps-start_call :
      (skill : RegisteredSkill h) (graph : ToolExecutionGraph h) (node : ToolNode h)
      (step attempt : ℕ)
      → Keeps
          (Extends context.session_id s0)
          (Fails outside)
          (start_call outside engine context skill graph node step attempt)
  unfolding start_call
  Keeps-start_call skill graph node step attempt =
      search (append_rules, Keeps-append_tool_checkpoint)

  Keeps-check_args :
      (skill : RegisteredSkill h) (graph : ToolExecutionGraph h) (node : ToolNode h)
      → Keeps
          (Extends context.session_id s0)
          (Fails outside)
          (check_args outside engine context skill graph node)
  unfolding check_args
  Keeps-check_args skill graph node = search (append_rules, Keeps-append_validation)

  Keeps-admit :
      (skill : RegisteredSkill h) (graph : ToolExecutionGraph h) (node : ToolNode h) (step : ℕ)
      (attempts : Assoc ℕ) (refused : Option (SkillFailureKind × String))
      → Keeps
          (Extends context.session_id s0)
          (Fails outside)
          (admit outside engine context skill graph node step attempts refused)
  Keeps-admit skill graph node step attempts none = search (append_rules, Keeps-start_call)
  Keeps-admit skill graph node step attempts (some r) = search (append_rules, Keeps-fail_node)

  Keeps-prepare_checked :
      (skill : RegisteredSkill h) (graph : ToolExecutionGraph h) (node : ToolNode h) (step : ℕ)
      (attempts : Assoc ℕ) (errors : List String)
      → Keeps
          (Extends context.session_id s0)
          (Fails outside)
          (prepare_checked outside engine context skill graph node step attempts errors)
  Keeps-prepare_checked skill graph node step attempts [] =
      search (append_rules, Keeps-append_tool_checkpoint, Keeps-admit)
  Keeps-prepare_checked skill graph node step attempts (e ∷ errors) =
      search (append_rules, Keeps-fail_node)

  Keeps-prepare_with :
      (skill : Option (RegisteredSkill h)) (graph : ToolExecutionGraph h) (node : ToolNode h)
      (step : ℕ) (attempts : Assoc ℕ)
      → Keeps
          (Extends context.session_id s0)
          (Fails outside)
          (prepare_with outside engine context skill graph node step attempts)
  Keeps-prepare_with none graph node step attempts =
      search (append_rules, Keeps-append_validation, Keeps-fail_node)
  Keeps-prepare_with (some skill) graph node step attempts =
      search (append_rules, Keeps-check_args, Keeps-prepare_checked)

  pub Keeps-prepare_node :
      (graph : ToolExecutionGraph h) (node : ToolNode h) (step : ℕ) (attempts : Assoc ℕ)
      → Keeps
          (Extends context.session_id s0)
          (Fails outside)
          (prepare_node outside engine context graph node step attempts)
  unfolding prepare_node
  Keeps-prepare_node graph node step attempts = Keeps-prepare_with _ graph node step attempts
