-- ===== src/Engine/Finish.antt =====
-- rain-engine-core/src/engine.rs: how an advance ends (`finish`, `suspend`, `policy_outcome`) and what
-- it persists on the way.
pub mod Limits
pub mod Grows
use rain_engine.Prelude.{
  ℕ, ◌*◌, String, Bool, false, Option, none, some, List, [], ◌∷◌, ◌++◌, map, leb, if◌then◌else◌,
}
use rain_engine.Prelude.Assoc
use rain_engine.Prelude.Assoc.{Assoc}
use rain_engine.Host.{Host}
use rain_engine.Types.Ids.{SystemTime, Instant, ResumeToken}
use rain_engine.Types.Actions.{PlannedSkillCall, SuspendReason}
use rain_engine.Types.Events.{KernelEventRecord}
use rain_engine.Types.Records.{
  OutcomeRecord, SessionRecord, SessionSnapshot, StopReason, PendingApprovalRecord,
  ProviderUsageRecord, ProviderCacheRecord,
}
use rain_engine.Types.Tools.{ok}
use rain_engine.Types.Provider.{ProviderDecision}
use rain_engine.Types.Requests.{AgentContext, EngineOutcome}
use rain_engine.Ledger.Views.{total_estimated_cost_usd}
use rain_engine.Store.Appends.{
  append_outcome, append_pending_approval, append_kernel_event, append_provider_usage,
  append_provider_cache,
}
use rain_engine.World.{World, Outside}
use rain_engine.World.Exec.{
  Exec, pure, ask, ignored, each, when_some, ◌>>=◌, ◌>>◌, append, now, instant_now,
}
use rain_engine.Engine.Context.{with_record}
use rain_engine.Engine.Improve.{run_self_improvement}

module _ {h : Host} where
  -- `StateProjectionCache::set_projection` of rain-engine-core/src/state_cache.rs, in memory
  unfoldable pub set_projection : String → SessionSnapshot h → Exec h Unit
  set_projection id snapshot w =
      (ok tt, record w { state_cache = Assoc.insert id snapshot w.state_cache })

  unfoldable pub get_projection : String → World h → Option (SessionSnapshot h)
  get_projection id w = Assoc.get id w.state_cache

  unfoldable pub invalidate : String → Exec h Unit
  invalidate id w = (ok tt, record w { state_cache = Assoc.remove id w.state_cache })

  unfoldable pub outcome_record :
      AgentContext h
      → SystemTime
      → StopReason
      → Option String
      → Option String
      → ℕ
      → Option ResumeToken
      → OutcomeRecord
  outcome_record context at stop_reason response detail steps_executed resume_token = record {
    trigger_id = context.metadata.trigger_id;
    idempotency_key = context.metadata.idempotency_key;
    finished_at = at;
    stop_reason = stop_reason;
    response = response;
    detail = detail;
    steps_executed = steps_executed;
    resume_token = resume_token;
  }

abbrev pub engine_outcome : OutcomeRecord → EngineOutcome
engine_outcome o = record {
  trigger_id = o.trigger_id;
  stop_reason = o.stop_reason;
  response = o.response;
  detail = o.detail;
  steps_executed = o.steps_executed;
  idempotent_replay = false;
  resume_token = o.resume_token;
}

-- The detail of the outcome of a suspension.
abbrev pub suspend_detail : SuspendReason → String
suspend_detail (SuspendReason.human_approval_required names) = "human approval required"
suspend_detail (SuspendReason.provider_requested message) = message

-- An `Instant` counts nanoseconds.
abbrev pub milliseconds : ℕ → Instant
milliseconds ms = ms * 1000000

module _ {h : Host} where
  -- Why an advance must stop: the first limit that is reached, in the order of the code.
  unfoldable pub policy_stop :
      Bool → Instant → AgentContext h → ℕ → ℕ → Option (StopReason × String)
  unfolding total_estimated_cost_usd
  policy_stop cancelled at context steps_executed failure_steps =
      if cancelled
      then some (StopReason.cancelled, "execution cancelled")
      else if leb context.metadata.deadline at
      then some (StopReason.deadline_exceeded, "engine execution deadline exceeded")
      else if leb context.metadata.policy.max_steps steps_executed
      then some (StopReason.max_steps_reached, "max steps reached")
      else if leb context.metadata.policy.max_consecutive_tool_failures failure_steps
      then some (StopReason.policy_aborted, "max consecutive tool failure steps reached")
      else if h.fleb context.metadata.policy.max_cost_per_session
          (total_estimated_cost_usd context.records)
      then some (StopReason.policy_aborted, "session cost limit reached")
      else none

module _ {h : Host} (outside : Outside h) where
  -- An outcome that cannot be stored is logged, and the advance goes on.
  unfoldable pub finish :
      AgentContext h
      → StopReason
      → Option String
      → Option String
      → ℕ
      → Option ResumeToken
      → Exec h EngineOutcome
  unfolding ◌>>=◌ pure now ignored append append_outcome outcome_record run_self_improvement
      set_projection
  finish context stop_reason response detail steps_executed resume_token = do
    at ← now outside
    let outcome : OutcomeRecord =
        outcome_record context at stop_reason response detail steps_executed resume_token
    ignored (append_outcome (append outside) context.session_id outcome)
    context' ←
        run_self_improvement outside (with_record (SessionRecord.outcome outcome) context) outcome
    set_projection context.session_id (record {
      session_id = context.session_id;
      records = context'.records;
      last_sequence_no = none;
      latest_outcome = some outcome;
    })
    pure (engine_outcome outcome)

  abbrev pub finish_if :
      AgentContext h → ℕ → Option (StopReason × String) → Exec h (Option EngineOutcome)
  finish_if context steps_executed none = pure none
  finish_if context steps_executed (some (reason, detail)) = do
    outcome ← finish context reason none (some detail) steps_executed none
    pure (some outcome)

  unfoldable pub policy_outcome : AgentContext h → ℕ → ℕ → Exec h (Option EngineOutcome)
  unfolding finish policy_stop instant_now ask
  policy_outcome context steps_executed failure_steps = do
    cancelled ← ask outside.is_cancelled
    at ← instant_now outside
    finish_if context steps_executed (policy_stop cancelled at context steps_executed failure_steps)

  unfoldable pub suspend :
      AgentContext h
      → ℕ
      → SuspendReason
      → List (PlannedSkillCall h)
      → ResumeToken
      → Exec h EngineOutcome
  unfolding finish append_pending_approval
  suspend context step reason pending_calls resume_token = do
    at ← now outside
    let pending : PendingApprovalRecord h = record {
      resume_token = resume_token;
      created_at = at;
      trigger_id = context.metadata.trigger_id;
      step = step;
      reason = reason;
      pending_calls = pending_calls;
    }
    append_pending_approval (append outside) context.session_id pending
    finish (with_record (SessionRecord.pending_approval pending) context) StopReason.suspended none
        (some (suspend_detail reason)) step (some resume_token)

  -- `persist_kernel_events`. The context's records follow by `with_events`.
  unfoldable pub persist_kernel_events : String → List (KernelEventRecord h) → Exec h Unit
  unfolding append_kernel_event append each
  persist_kernel_events session_id = each (append_kernel_event (append outside) session_id)

  -- `persist_provider_metadata`. The context's records follow by `with_metadata`.
  unfoldable pub persist_provider_metadata : String → ProviderDecision h → Exec h Unit
  unfolding append_provider_usage append_provider_cache append ◌>>=◌ pure
  persist_provider_metadata session_id decision =
      when_some decision.usage (append_provider_usage (append outside) session_id)
      >> when_some decision.cache (append_provider_cache (append outside) session_id)

module _ {h : Host} where
  abbrev pub with_events : List (KernelEventRecord h) → AgentContext h → AgentContext h
  with_events events context = record context {
    records = context.records ++ map SessionRecord.kernel_event events;
  }

  abbrev pub usage_records : Option (ProviderUsageRecord h) → List (SessionRecord h)
  usage_records none = []
  usage_records (some usage) = SessionRecord.provider_usage usage ∷ []

  abbrev pub cache_records : Option ProviderCacheRecord → List (SessionRecord h)
  cache_records none = []
  cache_records (some cache) = SessionRecord.provider_cache cache ∷ []

  abbrev pub with_metadata : ProviderDecision h → AgentContext h → AgentContext h
  with_metadata decision context = record context {
    records = (context.records ++ usage_records decision.usage) ++ cache_records decision.cache;
  }
