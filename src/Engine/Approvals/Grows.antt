-- ===== src/Engine/Approvals/Grows.antt =====
-- rain-engine-core/src/engine.rs: what a resumed approval leaves of the memory store.
use rain_engine.Prelude.{ℕ, String, Option, none, some, List, [], ◌∷◌}
use rain_engine.Host.{Host}
use rain_engine.Types.Ids.{ResumeToken}
use rain_engine.Types.Actions.{ApprovalDecision, PlannedSkillCall}
use rain_engine.Types.Tools.{ToolResultRecord}
use rain_engine.Types.Events.{AgentTrigger, KernelEventRecord}
use rain_engine.Types.Records.{PendingApprovalRecord}
use rain_engine.Types.Requests.{AgentContext}
use rain_engine.Store.{InMemoryMemoryStore}
use rain_engine.Tools.Execute.{BatchExecution, ExecutedBatch}
use rain_engine.World.{Outside}
use rain_engine.Engine.Context.{AgentEngine}
use rain_engine.World.Grows.{Keeps, Fails, Extends}
use rain_engine.World.Appends.{append_rules}
use rain_engine.Prelude.{◌≡◌, sym}
use rain_engine.World.Grows.{Keeps-bind, Keeps-now, Keeps-pure, Keeps-each}
use rain_engine.World.Appends.{Keeps-append_tool_result}
use rain_engine.Tools.Execute.Grows.{Keeps-execute_planned_calls}
use rain_engine.Engine.Finish.Grows.{Keeps-finish}
use rain_engine.Engine.Step.Grows.{Keeps-step}
use rain_engine.Engine.Approvals.{
  rejected_result, with_results, reject_calls, stop_with, append_results, resume_with, on_resumed,
  decide, decide_again, approve, take_trigger,
}

module _ {h : Host} (outside : Outside h) (s0 : InMemoryMemoryStore h) (engine : AgentEngine h)
    (events : List (KernelEventRecord h)) (context : AgentContext h) where
  Keeps-reject_calls :
      (calls : List (PlannedSkillCall h))
      → Keeps
          (Extends context.session_id s0)
          (Fails outside)
          (reject_calls outside engine events calls)
  unfolding reject_calls
  Keeps-reject_calls [] = search append_rules
  Keeps-reject_calls (call ∷ calls) = Keeps-bind _ _ (Keeps-now outside) (λ at.
      Keeps-bind _ _ (Keeps-reject_calls calls) (λ rs. Keeps-pure (rejected_result at call ∷ rs)))

  pub Keeps-stop_with :
      (detail : String) (steps : ℕ)
      → Keeps
          (Extends context.session_id s0)
          (Fails outside)
          (stop_with outside engine events context detail steps)
  Keeps-stop_with detail steps = search (append_rules, Keeps-finish)

  pub Keeps-append_results :
      (results : List (ToolResultRecord h))
      → Keeps
          (Extends context.session_id s0)
          (Fails outside)
          (append_results outside engine events context.session_id results)
  unfolding append_results
  Keeps-append_results results =
      Keeps-each _ results (Keeps-append_tool_result outside s0 context.session_id)

  Keeps-resume_with :
      (trigger : AgentTrigger h) (step failures : ℕ) (batch : ExecutedBatch h)
      → Keeps
          (Extends context.session_id s0)
          (Fails outside)
          (resume_with outside engine events context trigger step failures batch)
  unfolding resume_with with_results
  Keeps-resume_with trigger step failures batch =
      search (append_rules, Keeps-append_results, Keeps-step)

  Keeps-on_resumed :
      (trigger : AgentTrigger h) (step failures : ℕ) (batch : BatchExecution h)
      → Keeps
          (Extends context.session_id s0)
          (Fails outside)
          (on_resumed outside engine events context trigger step failures batch)
  Keeps-on_resumed trigger step failures (BatchExecution.executed batch) =
      Keeps-resume_with trigger step failures batch
  Keeps-on_resumed trigger step failures (BatchExecution.suspended r c t) = Keeps-stop_with _ step

  Keeps-decide :
      (trigger : AgentTrigger h) (failures : ℕ) (pending : PendingApprovalRecord h)
      (decision : ApprovalDecision)
      → Keeps
          (Extends context.session_id s0)
          (Fails outside)
          (decide outside engine events context trigger failures pending decision)
  Keeps-decide trigger failures pending ApprovalDecision.approved =
      search (append_rules, Keeps-execute_planned_calls, Keeps-on_resumed)
  Keeps-decide trigger failures pending ApprovalDecision.rejected =
      search (append_rules, Keeps-reject_calls, Keeps-resume_with)

  Keeps-decide_again :
      (trigger : AgentTrigger h) (steps failures : ℕ)
      (found : Option (PendingApprovalRecord h × ApprovalDecision))
      → Keeps
          (Extends context.session_id s0)
          (Fails outside)
          (decide_again outside engine events context trigger steps failures found)
  Keeps-decide_again trigger steps failures none = Keeps-stop_with _ steps
  Keeps-decide_again trigger steps failures (some (pending, decision)) =
      Keeps-decide trigger failures pending decision

  Keeps-approve :
      (trigger : AgentTrigger h) (steps failures : ℕ) (token : ResumeToken)
      (decision : ApprovalDecision) (metadata : h.Value) (found : Option (PendingApprovalRecord h))
      → Keeps (Extends context.session_id s0) (Fails outside) (
          approve outside engine events context trigger steps failures token decision metadata
            found)
  Keeps-approve trigger steps failures token decision metadata (some pending) =
      search (append_rules, Keeps-decide)
  Keeps-approve trigger steps failures token decision metadata none =
      Keeps-decide_again trigger steps failures _

  Keeps-take_trigger :
      (trigger : AgentTrigger h) (steps failures : ℕ)
      → Keeps
          (Extends context.session_id s0)
          (Fails outside)
          (take_trigger outside engine events context trigger steps failures)
  unfolding take_trigger
  Keeps-take_trigger (AgentTrigger.approval token decision metadata) steps failures =
      search (append_rules, Keeps-approve)
  Keeps-take_trigger trigger steps failures = search (Keeps-step)

module _ {h : Host} (outside : Outside h) (s0 : InMemoryMemoryStore h)
    (engine : AgentEngine h) where
  pub Keeps-trigger :
      (id : String) (events : List (KernelEventRecord h)) (context : AgentContext h)
      (trigger : AgentTrigger h) (steps failures : ℕ)
      → context.session_id ≡ id
      → Keeps
          (Extends id s0)
          (Fails outside)
          (take_trigger outside engine events context trigger steps failures)
  Keeps-trigger id events context trigger steps failures same =
      rw (sym same) (Keeps-take_trigger outside s0 engine events context trigger steps failures)
