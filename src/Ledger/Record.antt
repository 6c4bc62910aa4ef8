-- ===== src/Ledger/Record.antt =====
-- rain-engine-core/src/types.rs: `SessionRecord::{kind, occurred_at, trigger_id, idempotency_key}`
-- and `NewSessionRecord::from_record`.
use rain_engine.Prelude.{String, Option, none, some}
use rain_engine.Host.{Host}
use rain_engine.Types.Ids.{SystemTime, unix_time_ms}
use rain_engine.Types.Records.{SessionRecord, SessionRecordKind, NewSessionRecord}

module _ {h : Host} where
  unfoldable pub kind : SessionRecord h → SessionRecordKind
  kind (SessionRecord.trigger r) = SessionRecordKind.trigger
  kind (SessionRecord.trigger_intent r) = SessionRecordKind.trigger_intent
  kind (SessionRecord.kernel_event r) = SessionRecordKind.kernel_event
  kind (SessionRecord.model_decision r) = SessionRecordKind.model_decision
  kind (SessionRecord.deliberation r) = SessionRecordKind.deliberation
  kind (SessionRecord.tool_execution_graph r) = SessionRecordKind.tool_execution_graph
  kind (SessionRecord.tool_node_checkpoint r) = SessionRecordKind.tool_node_checkpoint
  kind (SessionRecord.skill_input_validation r) = SessionRecordKind.skill_input_validation
  kind (SessionRecord.tool_call r) = SessionRecordKind.tool_call
  kind (SessionRecord.tool_result r) = SessionRecordKind.tool_result
  kind (SessionRecord.pending_approval r) = SessionRecordKind.pending_approval
  kind (SessionRecord.approval_resolution r) = SessionRecordKind.approval_resolution
  kind (SessionRecord.delegation r) = SessionRecordKind.delegation
  kind (SessionRecord.coordination_claim r) = SessionRecordKind.coordination_claim
  kind (SessionRecord.provider_usage r) = SessionRecordKind.provider_usage
  kind (SessionRecord.provider_cache r) = SessionRecordKind.provider_cache
  kind (SessionRecord.reflection r) = SessionRecordKind.reflection
  kind (SessionRecord.policy_tuning r) = SessionRecordKind.policy_tuning
  kind (SessionRecord.strategy_preference r) = SessionRecordKind.strategy_preference
  kind (SessionRecord.tool_performance r) = SessionRecordKind.tool_performance
  kind (SessionRecord.profile_patch r) = SessionRecordKind.profile_patch
  kind (SessionRecord.execution_plan r) = SessionRecordKind.execution_plan
  kind (SessionRecord.summary r) = SessionRecordKind.summary
  kind (SessionRecord.outcome r) = SessionRecordKind.outcome

  unfoldable pub occurred_at : SessionRecord h → SystemTime
  occurred_at (SessionRecord.trigger r) = r.recorded_at
  occurred_at (SessionRecord.trigger_intent r) = r.classified_at
  occurred_at (SessionRecord.kernel_event r) = r.occurred_at
  occurred_at (SessionRecord.model_decision r) = r.decided_at
  occurred_at (SessionRecord.deliberation r) = r.created_at
  occurred_at (SessionRecord.tool_execution_graph r) = r.created_at
  occurred_at (SessionRecord.tool_node_checkpoint r) = r.occurred_at
  occurred_at (SessionRecord.skill_input_validation r) = r.validated_at
  occurred_at (SessionRecord.tool_call r) = r.called_at
  occurred_at (SessionRecord.tool_result r) = r.finished_at
  occurred_at (SessionRecord.pending_approval r) = r.created_at
  occurred_at (SessionRecord.approval_resolution r) = r.resolved_at
  occurred_at (SessionRecord.delegation r) = r.created_at
  occurred_at (SessionRecord.coordination_claim r) = r.claimed_at
  occurred_at (SessionRecord.provider_usage r) = r.recorded_at
  occurred_at (SessionRecord.provider_cache r) = r.cached_at
  occurred_at (SessionRecord.reflection r) = r.created_at
  occurred_at (SessionRecord.policy_tuning r) = r.created_at
  occurred_at (SessionRecord.strategy_preference r) = r.created_at
  occurred_at (SessionRecord.tool_performance r) = r.created_at
  occurred_at (SessionRecord.profile_patch r) = r.created_at
  occurred_at (SessionRecord.execution_plan r) = r.created_at
  occurred_at (SessionRecord.summary r) = r.created_at
  occurred_at (SessionRecord.outcome r) = r.finished_at

  unfoldable pub trigger_id : SessionRecord h → Option String
  trigger_id (SessionRecord.trigger r) = some r.trigger_id
  trigger_id (SessionRecord.trigger_intent r) = some r.trigger_id
  trigger_id (SessionRecord.deliberation r) = some r.trigger_id
  trigger_id (SessionRecord.tool_execution_graph r) = some r.trigger_id
  trigger_id (SessionRecord.pending_approval r) = some r.trigger_id
  trigger_id (SessionRecord.delegation r) = some r.trigger_id
  trigger_id (SessionRecord.reflection r) = some r.trigger_id
  trigger_id (SessionRecord.outcome r) = some r.trigger_id
  trigger_id _ = none

  unfoldable pub idempotency_key : SessionRecord h → Option String
  idempotency_key (SessionRecord.trigger r) = r.idempotency_key
  idempotency_key (SessionRecord.outcome r) = r.idempotency_key
  idempotency_key _ = none

  -- `NewSessionRecord::from_record`
  unfoldable pub new_record : String → SessionRecord h → NewSessionRecord h
  unfolding kind occurred_at trigger_id idempotency_key unix_time_ms
  new_record session r = record {
    session_id = session;
    occurred_at_ms = unix_time_ms (occurred_at r);
    record_kind = kind r;
    trigger_id = trigger_id r;
    idempotency_key = idempotency_key r;
    entry = r;
  }
