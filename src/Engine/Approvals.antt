-- ===== src/Engine/Approvals.antt =====
-- rain-engine-core/src/engine.rs: the part of `advance_trigger` that an approval resumes.
pub mod Grows
use rain_engine.Prelude.{
  ℕ, ◌+◌, String, true, not, Option, none, some, List, [], ◌∷◌, ◌++◌, map, find_map, str_eq,
  if◌then◌else◌,
}
use rain_engine.Host.{Host}
use rain_engine.Types.Ids.{SystemTime, ResumeToken}
use rain_engine.Types.Actions.{ApprovalDecision, PlannedSkillCall}
use rain_engine.Types.Tools.{ToolResultRecord, SkillFailureKind}
use rain_engine.Types.Events.{AgentTrigger, KernelEventRecord}
use rain_engine.Types.Records.{
  SessionRecord, StopReason, PendingApprovalRecord, ApprovalResolutionRecord,
}
use rain_engine.Types.Requests.{AgentContext, AdvanceResult}
use rain_engine.Store.{find_pending_approval_by_resume_token}
use rain_engine.Store.Appends.{append_approval_resolution, append_tool_result}
use rain_engine.Kernel.{build_advance_result}
use rain_engine.Tools.Prepare.{error_result}
use rain_engine.Tools.Execute.{BatchExecution, ExecutedBatch, execute_planned_calls}
use rain_engine.World.{Outside}
use rain_engine.World.Exec.{Exec, pure, each, ◌>>=◌, ◌>>◌, append, read_memory, now}
use rain_engine.Engine.Context.{AgentEngine}
use rain_engine.Engine.Finish.{finish}
use rain_engine.Engine.Step.{perform_single_step}

module _ {h : Host} where
  -- The results of calls that a human rejected.
  abbrev rejected_result : SystemTime → PlannedSkillCall h → ToolResultRecord h
  rejected_result at call =
      error_result at call.call_id call.name SkillFailureKind.permission_denied
        "human approval rejected"

  unfoldable pub with_results : List (ToolResultRecord h) → AgentContext h → AgentContext h
  with_results results context = record context {
    records = context.records ++ map SessionRecord.tool_result results;
    prior_tool_results = context.prior_tool_results ++ results;
  }

  -- A resolution of this token, and the pending approval of this token, in the context's records
  abbrev pub resolution_of : String → SessionRecord h → Option (ApprovalResolutionRecord h)
  resolution_of token (SessionRecord.approval_resolution r) =
      if str_eq r.resume_token.text token then some r else none
  resolution_of token _ = none

  abbrev pub pending_of : String → SessionRecord h → Option (PendingApprovalRecord h)
  pending_of token (SessionRecord.pending_approval p) =
      if str_eq p.resume_token.text token then some p else none
  pending_of token _ = none

  -- An approval that was resolved before: its pending calls and the decision of then.
  abbrev pub resolved_before :
      Option (ApprovalResolutionRecord h)
      → Option (PendingApprovalRecord h)
      → Option (PendingApprovalRecord h × ApprovalDecision)
  resolved_before (some r) (some p) = some (p, r.decision)
  resolved_before _ _ = none

-- The approval part of `advance_trigger`.
module _ {h : Host} (outside : Outside h) (engine : AgentEngine h)
    (events : List (KernelEventRecord h)) where
  unfoldable pub reject_calls : List (PlannedSkillCall h) → Exec h (List (ToolResultRecord h))
  unfolding now ◌>>=◌ pure error_result
  reject_calls [] = pure []
  reject_calls (call ∷ calls) = do
    at ← now outside
    results ← reject_calls calls
    pure (rejected_result at call ∷ results)

  abbrev pub stop_with : AgentContext h → String → ℕ → Exec h (AdvanceResult h)
  stop_with context detail steps_executed = do
    outcome ←
        finish outside context StopReason.policy_aborted none (some detail) steps_executed none
    pure (build_advance_result outcome events)

  unfoldable pub append_results : String → List (ToolResultRecord h) → Exec h Unit
  unfolding append_tool_result append each
  append_results session_id = each (append_tool_result (append outside) session_id)

  -- The results of the resumed calls are stored, and the next step is taken after them.
  unfoldable pub resume_with :
      AgentContext h → AgentTrigger h → ℕ → ℕ → ExecutedBatch h → Exec h (AdvanceResult h)
  unfolding append_results with_results perform_single_step ◌>>=◌
  resume_with context trigger step failure_steps batch = do
    append_results context.session_id batch.results
    perform_single_step outside engine (step + 1) events (with_results batch.results context)
        trigger (if batch.all_failed then failure_steps + 1 else failure_steps)

  abbrev on_resumed :
      AgentContext h → AgentTrigger h → ℕ → ℕ → BatchExecution h → Exec h (AdvanceResult h)
  on_resumed context trigger step failure_steps (BatchExecution.executed batch) =
      resume_with context trigger step failure_steps batch
  on_resumed context trigger step failure_steps (BatchExecution.suspended reason calls token) =
      stop_with context "approval resume unexpectedly suspended" step

  abbrev decide :
      AgentContext h
      → AgentTrigger h
      → ℕ
      → PendingApprovalRecord h
      → ApprovalDecision
      → Exec h (AdvanceResult h)
  decide context trigger failure_steps pending ApprovalDecision.approved =
      execute_planned_calls outside engine context pending.step pending.pending_calls true
      >>= on_resumed context trigger pending.step failure_steps
  decide context trigger failure_steps pending ApprovalDecision.rejected = do
    results ← reject_calls pending.pending_calls
    resume_with context trigger pending.step failure_steps
        (record { results = results; all_failed = true })

  -- The approval of before, with its decision of then; it is not resolved again.
  abbrev decide_again :
      AgentContext h
      → AgentTrigger h
      → ℕ
      → ℕ
      → Option (PendingApprovalRecord h × ApprovalDecision)
      → Exec h (AdvanceResult h)
  decide_again context trigger steps_executed failure_steps none =
      stop_with context "resume token not found" steps_executed
  decide_again context trigger steps_executed failure_steps (some (pending, decision)) =
      decide context trigger failure_steps pending decision

  abbrev approve :
      AgentContext h
      → AgentTrigger h
      → ℕ
      → ℕ
      → ResumeToken
      → ApprovalDecision
      → h.Value
      → Option (PendingApprovalRecord h)
      → Exec h (AdvanceResult h)
  approve context trigger steps_executed failure_steps token decision metadata (some pending) = do
    at ← now outside
    append_approval_resolution (append outside) context.session_id (record {
      resume_token = pending.resume_token;
      resolved_at = at;
      decision = decision;
      metadata = metadata;
    })
    decide context trigger failure_steps pending decision
  approve context trigger steps_executed failure_steps token decision metadata none =
      decide_again context trigger steps_executed failure_steps (
        resolved_before (find_map (resolution_of token.text) context.records)
          (find_map (pending_of token.text) context.records))

  -- An approval resumes what it is for; every other trigger goes on to the next step.
  unfoldable pub take_trigger : AgentContext h → AgentTrigger h → ℕ → ℕ → Exec h (AdvanceResult h)
  unfolding read_memory find_pending_approval_by_resume_token append_approval_resolution append
      execute_planned_calls reject_calls resume_with perform_single_step finish build_advance_result
      ◌>>=◌ pure now
  take_trigger context (AgentTrigger.approval token decision metadata) steps_executed
        failure_steps =
      do
        pending ←
            read_memory outside
              λ s. find_pending_approval_by_resume_token s context.session_id token.text
        approve context (AgentTrigger.approval token decision metadata) steps_executed failure_steps
            token decision metadata pending
  take_trigger context trigger steps_executed failure_steps =
      perform_single_step outside engine steps_executed events context trigger failure_steps
